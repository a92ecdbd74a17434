-- ===== src/Server/Session/Negotiation.antt =====
-- What the negotiation of a version settles.
use ninep.Prelude.{
  ◌⊎◌, inl, inr, ℕ, ◌+◌, ◌<◌, ◌≤◌, ◌≡◌, refl, sym, ap, ◌∙◌, List, [], ◌∷◌, ◌≢◌, Bool, true, false,
  not, Option, none, some, ltb, leb, arith,
}
use ninep.Proto.Base.{Bytes, Result, ok, err}
use ninep.Proto.Session.{Tversion, decode_tversion}
use ninep.Server.Names.{same, same_refl, same→≡}
use ninep.Server.Handlers.Io.{min}
use ninep.Server.FidTable.Cases.{if_cases}
use ninep.Server.Conn.{Backend, Conn}
use ninep.Server.Session.{
  Protocol, protocol_none, protocol_l, protocol_u, NegotiationResult, negotiate, is_protocol_none,
  version_l, version_u, version_unknown, min_msize, serve, Serving, close_conn, apply_result,
  answer_version, decoded_version, handle_re_version, negotiation_rate_limit, cleanup,
}
use ninep.Server.Handlers.Dispatch.{Request}
use ninep.Server.Session.References.{IsFresh, cleanup_leaves_nothing}

-- "9P2000.L"
abbrev dialect_l : Bytes
dialect_l = 57 ∷ 80 ∷ 50 ∷ 48 ∷ 48 ∷ 48 ∷ 46 ∷ 76 ∷ []

-- "9P2000.u"
abbrev dialect_u : Bytes
dialect_u = 57 ∷ 80 ∷ 50 ∷ 48 ∷ 48 ∷ 48 ∷ 46 ∷ 117 ∷ []

-- "unknown"
abbrev no_dialect : Bytes
no_dialect = 117 ∷ 110 ∷ 107 ∷ 110 ∷ 111 ∷ 119 ∷ 110 ∷ []

-- The protocol and the version that answer a client which asks for `asked`.
unfoldable pub Speaks : Bytes → Protocol → Bytes → Type 0
Speaks asked protocol_l answer = (asked ≡ dialect_l) × (answer ≡ dialect_l)
Speaks asked protocol_u answer = (asked ≡ dialect_u) × (answer ≡ dialect_u)
Speaks asked protocol_none answer =
    (asked ≢ dialect_l) × (asked ≢ dialect_u) × (answer ≡ no_dialect)

-- A result that `negotiate` may give: the smaller of the two sizes, and the dialect that was asked for
-- or none.
pub record Settles (max_msize : ℕ) (tv : Tversion) (r : NegotiationResult) : Type 0 where
  pub enough : 256 ≤ r.msize
  pub below_client : r.msize ≤ tv.msize
  pub below_server : r.msize ≤ max_msize
  pub either : (r.msize ≡ tv.msize) ⊎ (r.msize ≡ max_msize)
  pub version : Speaks tv.version r.selected r.version

settle :
    (max_msize : ℕ) (tv : Tversion) (p : Protocol) (v : Bytes)
    → 256 ≤ min tv.msize max_msize
    → Speaks tv.version p v
    → Settles max_msize tv (record { msize = min tv.msize max_msize; selected = p; version = v })
settle max_msize tv p v h e = record {
  enough = h;
  below_client = ground arith;
  below_server = ground arith;
  either =
      if_cases {A = ℕ} (λ m. (m ≡ tv.msize) ⊎ (m ≡ max_msize)) (leb tv.msize max_msize)
        (λ h. inl refl) (λ h. inr refl);
  version = e;
}

differs : (xs ys : Bytes) → same xs ys ≡ false → xs ≢ ys
differs xs ys h e = let alike = ap (same xs) (sym e) ∙ same_refl xs in cc

-- How the answer of `negotiate` may be.
abbrev pub Answered : ℕ → Tversion → Option NegotiationResult → Type 0
Answered max_msize tv o =
    (((tv.msize < 256) ⊎ (max_msize < 256)) × (o ≡ none))
    ⊎ ((r : NegotiationResult) × (o ≡ some r) × Settles max_msize tv r)

too_small : (a c : ℕ) → min a c < 256 → (a < 256) ⊎ (c < 256)
too_small a c =
    if_cases {A = ℕ} (λ m. m < 256 → (a < 256) ⊎ (c < 256)) (leb a c) (λ e h. inl h) (λ e h. inr h)

-- A version is refused exactly when the smaller of the two sizes is below 256. Otherwise the size
-- agreed on is at least 256, at most what the client asked for and at most the limit of the server, and
-- is one of these two. A client that asks for "9P2000.L" or "9P2000.u" gets that dialect and that
-- version; one that asks for anything else gets no dialect and "unknown".
pub negotiate_lem : (max_msize : ℕ) (tv : Tversion) → Answered max_msize tv (negotiate max_msize tv)
unfolding negotiate Speaks
negotiate_lem max_msize tv =
    if_cases {A = Option NegotiationResult} (Answered max_msize tv)
      (ltb (min tv.msize max_msize) min_msize)
      (λ e. inl (too_small tv.msize max_msize (ground arith), refl))
      (λ e.
        if_cases {A = Option NegotiationResult} (Answered max_msize tv) (same tv.version version_l)
          (λ l. inr (
            _,
            refl,
            settle max_msize tv protocol_l tv.version (ground arith)
                (same→≡ tv.version dialect_l l, same→≡ tv.version dialect_l l),
          ))
          (λ l.
            if_cases {A = Option NegotiationResult} (Answered max_msize tv)
              (same tv.version version_u)
              (λ u. inr (
                _,
                refl,
                settle max_msize tv protocol_u tv.version (ground arith)
                    (same→≡ tv.version dialect_u u, same→≡ tv.version dialect_u u),
              ))
              (λ u. inr (
                _,
                refl,
                settle max_msize tv protocol_none version_unknown (ground arith)
                    (differs tv.version dialect_l l, differs tv.version dialect_u u, refl),
              ))))

module _ (b : Backend) where
  open b use {World}

  answered-conn :
      (sent : Bool) (o : Option NegotiationResult) (s : Serving b)
      → ((answer_version b sent o s).conn.fids ≡ s.conn.fids)
        × ((answer_version b sent o s).conn.inodes ≡ s.conn.inodes)
  unfolding answer_version close_conn apply_result
  answered-conn sent none s = (refl, refl)
  answered-conn false (some r) s = (refl, refl)
  answered-conn true (some r) s =
      if_cases {A = Serving b} (λ t. (t.conn.fids ≡ s.conn.fids) × (t.conn.inodes ≡ s.conn.inodes))
        (is_protocol_none r.selected) (λ e. (refl, refl)) (λ e. (refl, refl))

  decoded-conn :
      (max_msize : ℕ) (sent : Bool) (d : Result (Tversion × Bytes)) (s : Serving b)
      → ((decoded_version b max_msize sent d s).conn.fids ≡ s.conn.fids)
        × ((decoded_version b max_msize sent d s).conn.inodes ≡ s.conn.inodes)
  unfolding decoded_version close_conn
  decoded-conn max_msize sent (ok (tv, rest)) s = answered-conn sent (negotiate max_msize tv) s
  decoded-conn max_msize sent (err e) s = (refl, refl)

  cleaned :
      (rs : List Request) (c d : Conn World)
      → IsFresh c
      → d ≡ serve b rs c
      → IsFresh (cleanup b true d)
  cleaned rs c d h e =
      let r = cleanup_leaves_nothing b true rs c h in
      record { fids = rw e r.0; refs = λ i. rw e (r.1 i) }

  decoded-Fresh :
      (max_msize : ℕ) (sent : Bool) (d : Result (Tversion × Bytes)) (s : Serving b)
      → IsFresh s.conn
      → IsFresh (decoded_version b max_msize sent d s).conn
  decoded-Fresh max_msize sent d s h =
      let e = decoded-conn max_msize sent d s in
      record { fids = e.0 ∙ h.fids; refs = λ i. rw e.1 (h.refs i) }

-- A connection starts with no fids, on inodes that nothing refers to, and serves any requests. Then a
-- Tversion comes, at least the rate limit after the last one. Unless it closes the connection, it
-- leaves no fid and no reference on any inode, whatever its body holds.
pub re_version_clears :
    (b : Backend) (rs : List Request) (c : Conn b.World) (s : Serving b) (max_msize now : ℕ)
    (drained sent : Bool) (body : Bytes)
    → IsFresh c
    → s.conn ≡ serve b rs c
    → s.last_negotiation + negotiation_rate_limit ≤ now
    → (handle_re_version b max_msize now drained sent body s).nc_closed ≡ false
    → IsFresh (handle_re_version b max_msize now drained sent body s).conn
unfolding handle_re_version close_conn
re_version_clears b rs c s max_msize now drained sent body h e later =
    if_cases {A = Serving b} (λ t. t.nc_closed ≡ false → IsFresh t.conn)
      (ltb now (s.last_negotiation + negotiation_rate_limit)) (λ l. ground arith)
      (λ l.
        if_cases {A = Serving b} (λ t. t.nc_closed ≡ false → IsFresh t.conn) (not drained)
          (λ d n. cc)
          (λ d n.
            decoded-Fresh b max_msize sent (decode_tversion body) _ (cleaned b rs c s.conn h e)))
