-- ===== src/Proto/Session/Canonical.antt =====
-- proto/messages.go: each message that the reader accepts is in range, and its writer gives the bytes read.
use ninep.Prelude.{refl}
use ninep.Proto.Laws.Recodes.{Whole, end, field, uint16, uint32, fid, string, qid}
use ninep.Proto.Session.{
  TversionInRange, encode_tversion, decode_tversion, RversionInRange, encode_rversion,
  decode_rversion, TauthInRange, encode_tauth, decode_tauth, RauthInRange, encode_rauth,
  decode_rauth, TattachInRange, encode_tattach, decode_tattach, RattachInRange, encode_rattach,
  decode_rattach, TflushInRange, encode_tflush, decode_tflush, encode_rflush, decode_rflush,
}

pub tversion_recodes : Whole decode_tversion encode_tversion TversionInRange
unfolding encode_tversion decode_tversion
tversion_recodes =
    field _ _ _ _ uint32
      λ _ h_msize. field _ _ _ _ string λ _ _. end _ _ _ _ refl (record { msize = h_msize })

pub rversion_recodes : Whole decode_rversion encode_rversion RversionInRange
unfolding encode_rversion decode_rversion
rversion_recodes =
    field _ _ _ _ uint32
      λ _ h_msize. field _ _ _ _ string λ _ _. end _ _ _ _ refl (record { msize = h_msize })

pub tauth_recodes : Whole decode_tauth encode_tauth TauthInRange
unfolding encode_tauth decode_tauth
tauth_recodes = field _ _ _ _ fid λ _ h_afid. field _ _ _ _ string λ _ _.
    field _ _ _ _ string λ _ _.
      field _ _ _ _ uint32
        λ _ h_n_uname. end _ _ _ _ refl (record { afid = h_afid; n_uname = h_n_uname })

pub rauth_recodes : Whole decode_rauth encode_rauth RauthInRange
unfolding encode_rauth decode_rauth
rauth_recodes = field _ _ _ _ qid λ _ h_aqid. end _ _ _ _ refl (record { aqid = h_aqid })

pub tattach_recodes : Whole decode_tattach encode_tattach TattachInRange
unfolding encode_tattach decode_tattach
tattach_recodes = field _ _ _ _ fid λ _ h_fid. field _ _ _ _ fid λ _ h_afid.
    field _ _ _ _ string λ _ _. field _ _ _ _ string λ _ _.
      field _ _ _ _ uint32
        λ _ h_n_uname. end _ _ _ _ refl (record { fid = h_fid; afid = h_afid; n_uname = h_n_uname })

pub rattach_recodes : Whole decode_rattach encode_rattach RattachInRange
unfolding encode_rattach decode_rattach
rattach_recodes = field _ _ _ _ qid λ _ h_qid. end _ _ _ _ refl (record { qid = h_qid })

pub tflush_recodes : Whole decode_tflush encode_tflush TflushInRange
unfolding encode_tflush decode_tflush
tflush_recodes =
    field _ _ _ _ uint16 λ _ h_old_tag. end _ _ _ _ refl (record { old_tag = h_old_tag })

pub rflush_recodes : Whole decode_rflush encode_rflush (λ _. Unit {0})
unfolding encode_rflush decode_rflush
rflush_recodes = end _ _ _ tt refl tt
