-- ===== src/Proto/Laws/Flags.antt =====
-- The lock flags that the reader lets through.
use ninep.Prelude.{ℕ, ◌<◌, ◌≡◌, true, ◌==◌, arith}
use ninep.Proto.Types.{unknown_lock_flags}

pub no_unknown_flags : (f : ℕ) → f < 4 → (unknown_lock_flags f == 0) ≡ true
unfolding unknown_lock_flags
no_unknown_flags f h = ground arith

pub known_flags : (f : ℕ) → (unknown_lock_flags f == 0) ≡ true → f < 4
unfolding unknown_lock_flags
known_flags f h = ground arith
