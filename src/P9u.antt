-- ===== src/P9u.antt =====
-- proto/p9u: the stat structure of 9P2000.u and the messages that carry it.
pub mod Stat
pub mod Open
