-- ===== src/Server/Errno.antt =====
-- proto/errno.go: the error numbers that the server sends of its own accord; and errnoFromError of
-- server/dispatch.go.
use ninep.Prelude.{ℕ}

abbrev pub enoent : ℕ
enoent = 2

abbrev pub eio : ℕ
eio = 5

abbrev pub ebadf : ℕ
ebadf = 9

abbrev pub eexist : ℕ
eexist = 17

abbrev pub enotdir : ℕ
enotdir = 20

abbrev pub eisdir : ℕ
eisdir = 21

abbrev pub einval : ℕ
einval = 22

abbrev pub emfile : ℕ
emfile = 24

abbrev pub efbig : ℕ
efbig = 27

abbrev pub enospc : ℕ
enospc = 28

abbrev pub enosys : ℕ
enosys = 38

abbrev pub enotempty : ℕ
enotempty = 39

-- An error of the code that implements the nodes: it wraps a proto.Errno, a syscall.Errno of the
-- host, or neither.
pub data NodeError : Type 0 where
  errno host_errno : ℕ → NodeError
  other_error : NodeError

-- `from_unix` is proto.ErrnoFromUnix, which depends on the platform.
unfoldable pub errno_from_error : (ℕ → ℕ) → NodeError → ℕ
errno_from_error from_unix (errno e) = e
errno_from_error from_unix (host_errno e) = from_unix e
errno_from_error from_unix other_error = eio
