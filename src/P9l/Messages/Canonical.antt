-- ===== src/P9l/Messages/Canonical.antt =====
-- proto/p9l/codec.go: what a reader of the switch accepts is in range and is written back as it was.
use ninep.Prelude.{ℕ, ◌≡◌, refl, Option, none, some, All}
use ninep.Proto.Base.{Bytes, Result, ok, Decoder, pure, ◌>>=◌}
use mathlib.Core.Path.{subst}
use ninep.P9l.Open.Canonical.{
  rlerror_recodes, tstatfs_recodes, rstatfs_recodes, tlopen_recodes, rlopen_recodes,
  tlcreate_recodes, rlcreate_recodes,
}
use ninep.P9l.Make.Canonical.{tsymlink_recodes, rsymlink_recodes, tmknod_recodes, rmknod_recodes}
use ninep.P9l.Rename.Canonical.{
  trename_recodes, rrename_recodes, treadlink_recodes, rreadlink_recodes,
}
use ninep.P9l.Attributes.Canonical.{
  tgetattr_recodes, rgetattr_recodes, tsetattr_recodes, rsetattr_recodes,
}
use ninep.P9l.Xattr.Canonical.{
  txattrwalk_recodes, rxattrwalk_recodes, txattrcreate_recodes, rxattrcreate_recodes,
  treaddir_recodes, rreaddir_recodes, tfsync_recodes, rfsync_recodes,
}
use ninep.P9l.Lock.Canonical.{tlock_recodes, rlock_recodes, tgetlock_recodes, rgetlock_recodes}
use ninep.P9l.Make.Canonical.{tlink_recodes, rlink_recodes, tmkdir_recodes, rmkdir_recodes}
use ninep.P9l.Rename.Canonical.{
  trenameat_recodes, rrenameat_recodes, tunlinkat_recodes, runlinkat_recodes,
}
use ninep.Proto.MessageType.{
  type_rlerror, type_tstatfs, type_rstatfs, type_tlopen, type_rlopen, type_tlcreate, type_rlcreate,
  type_tsymlink, type_rsymlink, type_tmknod, type_rmknod, type_trename, type_rrename,
  type_treadlink, type_rreadlink, type_tgetattr, type_rgetattr, type_tsetattr, type_rsetattr,
  type_txattrwalk, type_rxattrwalk, type_txattrcreate, type_rxattrcreate, type_treaddir,
  type_rreaddir, type_tfsync, type_rfsync, type_tlock, type_rlock, type_tgetlock, type_rgetlock,
  type_tlink, type_rlink, type_tmkdir, type_rmkdir, type_trenameat, type_rrenameat, type_tunlinkat,
  type_runlinkat,
}
use ninep.Proto.Laws.Recodes.{Whole, mapped}
use ninep.Proto.Frame.{switch}
use ninep.Proto.Frame.Laws.{switch-All}
use ninep.P9l.Messages.{
  Message, MessageInRange, rlerror, tstatfs, rstatfs, tlopen, rlopen, tlcreate, rlcreate, tsymlink,
  rsymlink, tmknod, rmknod, trename, rrename, treadlink, rreadlink, tgetattr, rgetattr, tsetattr,
  rsetattr, txattrwalk, rxattrwalk, txattrcreate, rxattrcreate, treaddir, rreaddir, tfsync, rfsync,
  tlock, rlock, tgetlock, rgetlock, tlink, rlink, tmkdir, rmkdir, trenameat, rrenameat, tunlinkat,
  runlinkat, shared, p9l_new_message, p9l_type, p9l_encode, p9l_cases, p9l_choose, p9l_shared,
}
use ninep.Proto.Messages.{BaseMessage, new_base_message}
use ninep.Proto.Messages.Canonical.{base_recodes}

abbrev Accepts : ℕ → Decoder Message → Type 0
Accepts t read = Whole read p9l_encode (λ m. MessageInRange m × (p9l_type m ≡ t))

case :
    {A : Type 0} (t : ℕ) {read : Decoder A} {w : A → Result Bytes} {P : A → Type 0}
    (g : A → Message)
    → ((a : A) → (p9l_encode (g a) ≡ w a))
    → ((a : A) → P a → MessageInRange (g a) × (p9l_type (g a) ≡ t))
    → Whole read w P
    → Accepts t (do m ← read; pure (g m))
case t g e v r = mapped g _ _ r (λ a h. (e a, v a h))

p9l_cases-Accepts : All (λ c. Accepts c.0 c.1) p9l_cases
unfolding p9l_cases p9l_encode p9l_type
p9l_cases-Accepts = (
  case type_rlerror rlerror (λ m. refl) (λ m h. (h, refl)) rlerror_recodes,
  (
    case type_tstatfs tstatfs (λ m. refl) (λ m h. (h, refl)) tstatfs_recodes,
    (
      case type_rstatfs rstatfs (λ m. refl) (λ m h. (h, refl)) rstatfs_recodes,
      (
        case type_tlopen tlopen (λ m. refl) (λ m h. (h, refl)) tlopen_recodes,
        (
          case type_rlopen rlopen (λ m. refl) (λ m h. (h, refl)) rlopen_recodes,
          (
            case type_tlcreate tlcreate (λ m. refl) (λ m h. (h, refl)) tlcreate_recodes,
            (
              case type_rlcreate rlcreate (λ m. refl) (λ m h. (h, refl)) rlcreate_recodes,
              (
                case type_tsymlink tsymlink (λ m. refl) (λ m h. (h, refl)) tsymlink_recodes,
                (
                  case type_rsymlink rsymlink (λ m. refl) (λ m h. (h, refl)) rsymlink_recodes,
                  (
                    case type_tmknod tmknod (λ m. refl) (λ m h. (h, refl)) tmknod_recodes,
                    (
                      case type_rmknod rmknod (λ m. refl) (λ m h. (h, refl)) rmknod_recodes,
                      (
                        case type_trename trename (λ m. refl) (λ m h. (h, refl)) trename_recodes,
                        (
                          case type_rrename rrename (λ m. refl) (λ m h. (h, refl)) rrename_recodes,
                          (
                            case type_treadlink treadlink (λ m. refl) (λ m h. (h, refl))
                                treadlink_recodes,
                            (
                              case type_rreadlink rreadlink (λ m. refl) (λ m h. (h, refl))
                                  rreadlink_recodes,
                              (
                                case type_tgetattr tgetattr (λ m. refl) (λ m h. (h, refl))
                                    tgetattr_recodes,
                                (
                                  case type_rgetattr rgetattr (λ m. refl) (λ m h. (h, refl))
                                      rgetattr_recodes,
                                  (
                                    case type_tsetattr tsetattr (λ m. refl) (λ m h. (h, refl))
                                        tsetattr_recodes,
                                    (
                                      case type_rsetattr rsetattr (λ m. refl) (λ m h. (h, refl))
                                          rsetattr_recodes,
                                      (
                                        case type_txattrwalk txattrwalk (λ m. refl)
                                            (λ m h. (h, refl)) txattrwalk_recodes,
                                        (
                                          case type_rxattrwalk rxattrwalk (λ m. refl)
                                              (λ m h. (h, refl)) rxattrwalk_recodes,
                                          (
                                            case type_txattrcreate txattrcreate (λ m. refl)
                                                (λ m h. (h, refl)) txattrcreate_recodes,
                                            (
                                              case type_rxattrcreate rxattrcreate (λ m. refl)
                                                  (λ m h. (h, refl)) rxattrcreate_recodes,
                                              (
                                                case type_treaddir treaddir (λ m. refl)
                                                    (λ m h. (h, refl)) treaddir_recodes,
                                                (
                                                  case type_rreaddir rreaddir (λ m. refl)
                                                      (λ m h. (h, refl)) rreaddir_recodes,
                                                  (
                                                    case type_tfsync tfsync (λ m. refl)
                                                        (λ m h. (h, refl)) tfsync_recodes,
                                                    (
                                                      case type_rfsync rfsync (λ m. refl)
                                                          (λ m h. (h, refl)) rfsync_recodes,
                                                      (
                                                        case type_tlock tlock (λ m. refl)
                                                            (λ m h. (h, refl)) tlock_recodes,
                                                        (
                                                          case type_rlock rlock (λ m. refl)
                                                            (λ m h. (h, refl)) rlock_recodes,
                                                          (
                                                            case type_tgetlock tgetlock (λ m. refl)
                                                            (λ m h. (h, refl)) tgetlock_recodes,
                                                            (
                                                            case type_rgetlock rgetlock (λ m. refl)
                                                            (λ m h. (h, refl)) rgetlock_recodes,
                                                            (
                                                            case type_tlink tlink (λ m. refl)
                                                            (λ m h. (h, refl)) tlink_recodes,
                                                            (
                                                            case type_rlink rlink (λ m. refl)
                                                            (λ m h. (h, refl)) rlink_recodes,
                                                            (
                                                            case type_tmkdir tmkdir (λ m. refl)
                                                            (λ m h. (h, refl)) tmkdir_recodes,
                                                            (
                                                            case type_rmkdir rmkdir (λ m. refl)
                                                            (λ m h. (h, refl)) rmkdir_recodes,
                                                            (
                                                            case type_trenameat trenameat
                                                            (λ m. refl) (λ m h. (h, refl))
                                                            trenameat_recodes,
                                                            (
                                                            case type_rrenameat rrenameat
                                                            (λ m. refl) (λ m h. (h, refl))
                                                            rrenameat_recodes,
                                                            (
                                                            case type_tunlinkat tunlinkat
                                                            (λ m. refl) (λ m h. (h, refl))
                                                            tunlinkat_recodes,
                                                            (
                                                            case type_runlinkat runlinkat
                                                            (λ m. refl) (λ m h. (h, refl))
                                                            runlinkat_recodes,
                                                            tt,
                                                            ),
                                                            ),
                                                            ),
                                                            ),
                                                            ),
                                                            ),
                                                            ),
                                                            ),
                                                            ),
                                                          ),
                                                        ),
                                                      ),
                                                    ),
                                                  ),
                                                ),
                                              ),
                                            ),
                                          ),
                                        ),
                                      ),
                                    ),
                                  ),
                                ),
                              ),
                            ),
                          ),
                        ),
                      ),
                    ),
                  ),
                ),
              ),
            ),
          ),
        ),
      ),
    ),
  ),
)

ok_inj : {a b : Decoder Message} → ◌≡◌ {A = Result (Decoder Message)} (ok a) (ok b) → a ≡ b
ok_inj h = cc

shared-Accepts :
    (t : ℕ) (o : Option (Decoder BaseMessage)) (read : Decoder Message)
    → new_base_message t ≡ o
    → p9l_shared o ≡ ok read
    → Accepts t read
unfolding p9l_shared p9l_encode p9l_type
shared-Accepts t none read p e = cc
shared-Accepts t (some base) read p e =
    subst (Accepts t) (ok_inj e) (case t shared (λ m. refl) (λ m h. h) (base_recodes t base p))

chosen-Accepts :
    (t : ℕ) (o : Option (Decoder Message)) (read : Decoder Message)
    → switch t p9l_cases ≡ o
    → p9l_choose o t ≡ ok read
    → Accepts t read
unfolding p9l_choose
chosen-Accepts t none read p e = shared-Accepts t (new_base_message t) read refl e
chosen-Accepts t (some own) read p e =
    subst (Accepts t) (ok_inj e) (switch-All Accepts t p9l_cases own p9l_cases-Accepts p)

pub p9l_recodes : (t : ℕ) (read : Decoder Message) → p9l_new_message t ≡ ok read → Accepts t read
unfolding p9l_new_message
p9l_recodes t read e = chosen-Accepts t (switch t p9l_cases) read refl e
