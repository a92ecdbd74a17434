-- ===== src/Tests/Code.antt =====
-- The names that a run of the codec computes with, for the `unfolding` lines of the tests.
use ninep.Proto.Base.{◌>>◌, ◌>>=◌, check, done, guard, pure, put_le, from_le}
use ninep.Proto.Types.{unknown_lock_flags}
use ninep.Proto.Encode.{
  write_uint8, write_uint16, write_uint32, write_uint64, write_fid, write_bytes, write_string,
  write_qid, write_all,
}
use ninep.Proto.Decode.{
  read_full, read_uint8, read_uint16, read_uint32, read_uint64, read_fid, read_string, read_data,
  read_qid, read_many,
}
use ninep.Proto.Frame.{switch, frame, lift, exactly, encode_frame, decode_frame}
use ninep.Proto.Messages.{base_type, base_encode, new_base_message}
use ninep.Proto.Walk.{encode_twalk, decode_twalk}
use ninep.P9l.Messages.{p9l_type, p9l_encode, p9l_new_message}
use ninep.P9l.Lock.{encode_tlock, decode_tlock}
use ninep.P9l.Codec.{encode, decode}

-- The primitive readers and writers.
unfoldable pub primitives : Unit {0}
unfolding ◌>>◌ ◌>>=◌ check done guard pure put_le from_le unknown_lock_flags write_uint8
    write_uint16 write_uint32 write_uint64 write_fid write_bytes write_string write_qid write_all
    read_full read_uint8 read_uint16 read_uint32 read_uint64 read_fid read_string read_data read_qid
    read_many
primitives = tt

-- Frames of 9P2000.L with a walk or a lock request in them.
unfoldable pub codec : Unit {0}
unfolding primitives switch frame lift exactly encode_frame decode_frame base_type base_encode
    new_base_message encode_twalk decode_twalk p9l_type p9l_encode p9l_new_message encode_tlock
    decode_tlock encode decode
codec = tt
