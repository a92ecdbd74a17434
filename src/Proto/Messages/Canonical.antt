-- ===== src/Proto/Messages/Canonical.antt =====
-- proto/frame.go and proto/messages.go: what a reader of the switch accepts is in range and is written back as it was.
use ninep.Prelude.{ℕ, ◌≡◌, refl, some, All}
use ninep.Proto.Base.{Bytes, Result, Decoder, pure, ◌>>=◌}
use ninep.Proto.Session.Canonical.{
  tversion_recodes, rversion_recodes, tauth_recodes, rauth_recodes, tattach_recodes,
  rattach_recodes, tflush_recodes, rflush_recodes,
}
use ninep.Proto.Walk.Canonical.{twalk_recodes, rwalk_recodes}
use ninep.Proto.Transfer.Canonical.{tread_recodes, rread_recodes, twrite_recodes, rwrite_recodes}
use ninep.Proto.Walk.Canonical.{tclunk_recodes, rclunk_recodes, tremove_recodes, rremove_recodes}
use ninep.Proto.MessageType.{
  type_tversion, type_rversion, type_tauth, type_rauth, type_tattach, type_rattach, type_tflush,
  type_rflush, type_twalk, type_rwalk, type_tread, type_rread, type_twrite, type_rwrite,
  type_tclunk, type_rclunk, type_tremove, type_rremove,
}
use ninep.Proto.Laws.Recodes.{Whole, mapped}
use ninep.Proto.Frame.Laws.{switch-All}
use ninep.Proto.Messages.{
  BaseMessage, BaseMessageInRange, tversion, rversion, tauth, rauth, tattach, rattach, tflush,
  rflush, twalk, rwalk, tread, rread, twrite, rwrite, tclunk, rclunk, tremove, rremove,
  new_base_message, base_type, base_encode, base_cases,
}

abbrev Accepts : ℕ → Decoder BaseMessage → Type 0
Accepts t read = Whole read base_encode (λ m. BaseMessageInRange m × (base_type m ≡ t))

case :
    {A : Type 0} (t : ℕ) {read : Decoder A} {w : A → Result Bytes} {P : A → Type 0}
    (g : A → BaseMessage)
    → ((a : A) → (base_encode (g a) ≡ w a))
    → ((a : A) → P a → BaseMessageInRange (g a) × (base_type (g a) ≡ t))
    → Whole read w P
    → Accepts t (do m ← read; pure (g m))
case t g e v r = mapped g _ _ r (λ a h. (e a, v a h))

base_cases-Accepts : All (λ c. Accepts c.0 c.1) base_cases
unfolding base_cases base_encode base_type
base_cases-Accepts = (
  case type_tversion tversion (λ m. refl) (λ m h. (h, refl)) tversion_recodes,
  (
    case type_rversion rversion (λ m. refl) (λ m h. (h, refl)) rversion_recodes,
    (
      case type_tauth tauth (λ m. refl) (λ m h. (h, refl)) tauth_recodes,
      (
        case type_rauth rauth (λ m. refl) (λ m h. (h, refl)) rauth_recodes,
        (
          case type_tattach tattach (λ m. refl) (λ m h. (h, refl)) tattach_recodes,
          (
            case type_rattach rattach (λ m. refl) (λ m h. (h, refl)) rattach_recodes,
            (
              case type_tflush tflush (λ m. refl) (λ m h. (h, refl)) tflush_recodes,
              (
                case type_rflush rflush (λ m. refl) (λ m h. (h, refl)) rflush_recodes,
                (
                  case type_twalk twalk (λ m. refl) (λ m h. (h, refl)) twalk_recodes,
                  (
                    case type_rwalk rwalk (λ m. refl) (λ m h. (h, refl)) rwalk_recodes,
                    (
                      case type_tread tread (λ m. refl) (λ m h. (h, refl)) tread_recodes,
                      (
                        case type_rread rread (λ m. refl) (λ m h. (h, refl)) rread_recodes,
                        (
                          case type_twrite twrite (λ m. refl) (λ m h. (h, refl)) twrite_recodes,
                          (
                            case type_rwrite rwrite (λ m. refl) (λ m h. (h, refl)) rwrite_recodes,
                            (
                              case type_tclunk tclunk (λ m. refl) (λ m h. (h, refl)) tclunk_recodes,
                              (
                                case type_rclunk rclunk (λ m. refl) (λ m h. (h, refl))
                                    rclunk_recodes,
                                (
                                  case type_tremove tremove (λ m. refl) (λ m h. (h, refl))
                                      tremove_recodes,
                                  (
                                    case type_rremove rremove (λ m. refl) (λ m h. (h, refl))
                                        rremove_recodes,
                                    tt,
                                  ),
                                ),
                              ),
                            ),
                          ),
                        ),
                      ),
                    ),
                  ),
                ),
              ),
            ),
          ),
        ),
      ),
    ),
  ),
)

pub base_recodes :
    (t : ℕ) (read : Decoder BaseMessage) → new_base_message t ≡ some read → Accepts t read
unfolding new_base_message
base_recodes t read e = switch-All Accepts t base_cases read base_cases-Accepts e
