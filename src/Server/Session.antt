-- ===== src/Server/Session.antt =====
-- server/conn.go and server/cleanup.go: the negotiation of a connection, the requests that it serves, and
-- how its fids are given up.
pub mod References
pub mod Negotiation
pub mod Clunk
pub mod Writes
use ninep.Prelude.{
  ℕ, ◌+◌, ◌-◌, List, [], ◌∷◌, Bool, true, false, not, ◌||◌, Option, none, some, ltb, leb, ◌==◌,
  if◌then◌else◌,
}
use ninep.Proto.Base.{Bytes, Result, ok, err}
use ninep.Proto.Session.{Tversion, Rversion, decode_tversion}
use ninep.Server.Names.{same}
use ninep.Server.Handlers.Io.{min}
use ninep.Server.FidTable.{clunk_all}
use ninep.Server.Conn.{Backend, Conn, Reply, Outcome}
use ninep.Server.Conn.Run.{Fid, dec_at, release_now}
use ninep.Server.Handlers.Dispatch.{Request, dispatch}

pub data Protocol : Type 0 where
  protocol_none protocol_l protocol_u : Protocol

abbrev pub min_msize : ℕ
min_msize = 256

-- "9P2000.L", "9P2000.u" and "unknown"
abbrev pub version_l : Bytes
version_l = 57 ∷ 80 ∷ 50 ∷ 48 ∷ 48 ∷ 48 ∷ 46 ∷ 76 ∷ []

abbrev pub version_u : Bytes
version_u = 57 ∷ 80 ∷ 50 ∷ 48 ∷ 48 ∷ 48 ∷ 46 ∷ 117 ∷ []

abbrev pub version_unknown : Bytes
version_unknown = 117 ∷ 110 ∷ 107 ∷ 110 ∷ 111 ∷ 119 ∷ 110 ∷ []

-- `negotiationResult`
pub record NegotiationResult : Type 0 where
  pub msize : ℕ
  pub selected : Protocol
  pub version : Bytes

-- `none` is ErrMsizeTooSmall.
unfoldable pub negotiate : ℕ → Tversion → Option NegotiationResult
negotiate max_msize tv =
    let msize = min tv.msize max_msize in
    if ltb msize min_msize
    then none
    else if same tv.version version_l
    then some (record { msize = msize; selected = protocol_l; version = tv.version })
    else if same tv.version version_u
    then some (record { msize = msize; selected = protocol_u; version = tv.version })
    else some (record { msize = msize; selected = protocol_none; version = version_unknown })

unfoldable pub is_protocol_none : Protocol → Bool
is_protocol_none protocol_none = true
is_protocol_none protocol_l = false
is_protocol_none protocol_u = false

-- 100 ms, in the nanoseconds of the clock
abbrev pub negotiation_rate_limit : ℕ
negotiation_rate_limit = 100000000

module _ (b : Backend) where
  open b use {World}

  -- The loop over the states that clunkAll took out. The answer of decRefNode says whether the node is
  -- closed; nothing is released while a handler may still run.
  unfoldable pub give_up : Bool → List Fid → Conn World → Conn World
  unfolding release_now
  give_up drained [] c = c
  give_up drained (fs ∷ rest) c =
      let d = dec_at (b.inode fs.node) c.inodes in
      let e : Conn World = record c { inodes = d.1 } in
      give_up drained rest (if drained then release_now b fs d.0 e else e)

  -- The part of `cleanup` that follows the wait for the handlers.
  unfoldable pub cleanup : Bool → Conn World → Conn World
  unfolding give_up
  cleanup drained c =
      give_up drained (clunk_all c.fids).0 (record c { fids = (clunk_all c.fids).1 })

  -- The state of a connection after a request, whatever it answers.
  unfoldable pub serve : List Request → Conn World → Conn World
  serve [] c = c
  serve (r ∷ rs) c = serve rs (dispatch b r c).1

  pub record Serving : Type 0 where
    pub conn : Conn World
    pub protocol : Protocol
    pub last_negotiation : ℕ
    pub nc_closed : Bool
    pub written : List Rversion

  unfoldable pub close_conn : Serving → Serving
  close_conn s = record s { nc_closed = true }

  unfoldable pub apply_result : NegotiationResult → Serving → Serving
  apply_result r s =
      if is_protocol_none r.selected
      then s
      else record s { conn = record s.conn { msize = r.msize }; protocol = r.selected }

  -- `sent` is whether writeRaw wrote the message.
  unfoldable pub answer_version : Bool → Option NegotiationResult → Serving → Serving
  unfolding close_conn apply_result
  answer_version sent none s = close_conn s
  answer_version false (some r) s = close_conn s
  answer_version true (some r) s =
      apply_result r
        (record s { written = record { msize = r.msize; version = r.version } ∷ s.written })

  unfoldable pub decoded_version : ℕ → Bool → Result (Tversion × Bytes) → Serving → Serving
  unfolding answer_version negotiate
  decoded_version max_msize sent (ok (tv, rest)) s = answer_version sent (negotiate max_msize tv) s
  decoded_version max_msize sent (err e) s = close_conn s

  -- handleReVersion at the time `now`; `drained` is whether the handlers ended before the deadline.
  unfoldable pub handle_re_version : ℕ → ℕ → Bool → Bool → Bytes → Serving → Serving
  unfolding decoded_version cleanup close_conn
  handle_re_version max_msize now drained sent body s =
      if ltb now (s.last_negotiation + negotiation_rate_limit)
      then s
      else if not drained
      then close_conn (record s { last_negotiation = now })
      else decoded_version max_msize sent (decode_tversion body)
          (record s { last_negotiation = now; conn = cleanup true s.conn })

  -- The end of negotiateVersion, from the body on. `none` is an error, which ends the connection.
  unfoldable pub first_version :
      ℕ → ℕ → Bool → Result (Tversion × Bytes) → Conn World → Option Serving
  unfolding negotiate
  first_version max_msize now sent (err e) c = none
  first_version max_msize now sent (ok (tv, rest)) c = elim (negotiate max_msize tv) [
    | none ↦ none
    | some r ↦
        if not sent || is_protocol_none r.selected
        then none
        else some (record {
          conn = record c { msize = r.msize };
          protocol = r.selected;
          last_negotiation = now;
          nc_closed = false;
          written = record { msize = r.msize; version = r.version } ∷ [];
        })
  ]
