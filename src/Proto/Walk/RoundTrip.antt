-- ===== src/Proto/Walk/RoundTrip.antt =====
-- proto/messages.go: the reader gives back each message that the writer wrote.
use ninep.Prelude.{[], ◌∷◌, ◌+◌, ◌≤◌, List, All, leb→le, arith, length}
use ninep.Proto.Base.{Bytes, max_walk_elements, max_string_len}
use ninep.Proto.Types.{Qid, QidInRange}
use ninep.Proto.Encode.{write_string, write_qid}
use ninep.Proto.Decode.{read_string, read_qid}
use ninep.Proto.Laws.Reads.{
  Reads, body_limit, end, checked, guarded, field, upto, uint16, fid, string, qid, repeated,
}
use ninep.Proto.Walk.{
  Twalk, TwalkInRange, encode_twalk, decode_twalk, Rwalk, RwalkInRange, encode_rwalk, decode_rwalk,
  Tclunk, TclunkInRange, encode_tclunk, decode_tclunk, Rclunk, encode_rclunk, decode_rclunk,
  Tremove, TremoveInRange, encode_tremove, decode_tremove, Rremove, encode_rremove, decode_rremove,
}

All-string :
    (xs : List Bytes) → All (λ s. Reads (write_string s) (2 + max_string_len) read_string s) xs
All-string [] = tt
All-string (s ∷ xs) = (string s, All-string xs)

pub twalk_reads : (m : Twalk) → TwalkInRange m → Reads (encode_twalk m) body_limit decode_twalk m
unfolding encode_twalk decode_twalk
twalk_reads m h = checked _ _ λ few.
    let n : length m.names ≤ max_walk_elements = leb→le _ _ few in
    upto _
      (field _ (fid h.fid) (
        field _ (fid h.new_fid) (
          field _ (uint16 (omega arith)) (
            guarded _ _ few (
              field _ (repeated write_string _ read_string m.names (All-string m.names))
                (end _))))))
      (omega arith)

All-qid : (xs : List Qid) → All QidInRange xs → All (λ q. Reads (write_qid q) 13 read_qid q) xs
All-qid [] h = tt
All-qid (q ∷ xs) h = (qid h.0, All-qid xs h.1)

pub rwalk_reads : (m : Rwalk) → RwalkInRange m → Reads (encode_rwalk m) body_limit decode_rwalk m
unfolding encode_rwalk decode_rwalk
rwalk_reads m h = checked _ _ λ few.
    let n : length m.qids ≤ max_walk_elements = leb→le _ _ few in
    upto _
      (field _ (uint16 (omega arith)) (
        guarded _ _ few
          (field _ (repeated write_qid 13 read_qid m.qids (All-qid m.qids h.qids)) (end _))))
      (omega arith)

pub tclunk_reads :
    (m : Tclunk) → TclunkInRange m → Reads (encode_tclunk m) body_limit decode_tclunk m
unfolding encode_tclunk decode_tclunk
tclunk_reads m h = upto _ (field _ (fid h.fid) (end _)) (omega arith)

pub rclunk_reads : (m : Rclunk) → Reads (encode_rclunk m) body_limit decode_rclunk m
unfolding encode_rclunk decode_rclunk
rclunk_reads m = upto _ (end m) (omega arith)

pub tremove_reads :
    (m : Tremove) → TremoveInRange m → Reads (encode_tremove m) body_limit decode_tremove m
unfolding encode_tremove decode_tremove
tremove_reads m h = upto _ (field _ (fid h.fid) (end _)) (omega arith)

pub rremove_reads : (m : Rremove) → Reads (encode_rremove m) body_limit decode_rremove m
unfolding encode_rremove decode_rremove
rremove_reads m = upto _ (end m) (omega arith)
