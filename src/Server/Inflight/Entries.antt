-- ===== src/Server/Inflight/Entries.antt =====
-- server/flush.go: the channels in the entries of the map, and the number of entries.
use ninep.Prelude.{
  ℕ, ◌+◌, ◌≡◌, refl, List, [], ◌∷◌, Option, none, some, length, count, one_if, arith,
}
use ninep.Server.Inflight.{InflightEntry, Entries, lookup, put, drop_entry, close, done_of}

-- The channels on which a Tflush waits for a request in the map.
unfoldable pub waited : Entries → List ℕ
unfolding close
waited [] = []
waited ((t, e) ∷ es) = close e.done (waited es)

unfoldable pub count_of : ℕ → Option ℕ → ℕ
count_of c none = 0
count_of c (some d) = one_if c d

pub count-close :
    (c : ℕ) (o : Option ℕ) (xs : List ℕ) → count c (close o xs) ≡ count_of c o + count c xs
unfolding close count_of
count-close c none xs = omega arith
count-close c (some d) xs = refl

pub waited-put :
    (c tag : ℕ) (new : InflightEntry) (es : Entries)
    → count c (waited (put tag new es)) + count_of c (done_of (lookup es tag))
      ≡ count c (waited es) + count_of c new.done
unfolding waited put lookup done_of count_of
waited-put c tag new [] = omega (arith, count-close c new.done [])
waited-put c tag new ((t, e) ∷ es) = ground (
  arith,
  waited-put c tag new es,
  count-close c new.done (waited es),
  count-close c e.done (waited es),
  count-close c e.done (waited (put tag new es)),
)

pub waited-drop :
    (c tag : ℕ) (es : Entries)
    → count c (waited (drop_entry tag es)) + count_of c (done_of (lookup es tag))
      ≡ count c (waited es)
unfolding waited drop_entry lookup done_of count_of
waited-drop c tag [] = refl
waited-drop c tag ((t, e) ∷ es) = ground (
  arith,
  waited-drop c tag es,
  count-close c e.done (waited es),
  count-close c e.done (waited (drop_entry tag es)),
)

unfoldable pub is_in : Option InflightEntry → ℕ
is_in none = 0
is_in (some e) = 1

pub length-put :
    (tag : ℕ) (new : InflightEntry) (es : Entries)
    → length (put tag new es) + is_in (lookup es tag) ≡ length es + 1
unfolding put lookup is_in
length-put tag new [] = omega arith
length-put tag new ((t, e) ∷ es) = ground (arith, length-put tag new es)

pub length-drop_entry :
    (tag : ℕ) (es : Entries) → length (drop_entry tag es) + is_in (lookup es tag) ≡ length es
unfolding drop_entry lookup is_in
length-drop_entry tag [] = omega arith
length-drop_entry tag ((t, e) ∷ es) = ground (arith, length-drop_entry tag es)
