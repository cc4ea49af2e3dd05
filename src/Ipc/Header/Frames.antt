-- ===== src/Ipc/Header/Frames.antt =====
-- wv_ipc/wave_ipc_core.c: the array of headers as the list of the headers that were pushed.
use dwpal.Common.{
  ℕ, ◌+◌, ◌-◌, ◌≤◌, ◌<◌, ◌≡◌, refl, sym, ap, ◌∙◌, List, [], ◌∷◌, ◌++◌, arith, length, replicate,
  length-append, length-replicate, All,
}
use mathlib.Core.List.{append_assoc}
use dwpal.Ipc.Message.{hdr_size}

-- The bytes of the headers, oldest first, each behind its length.
abbrev pub encode : List (List ℕ) → List ℕ
encode [] = []
encode (f ∷ fs) = length f ∷ (f ++ encode fs)

-- The array that holds them.
abbrev pub layout : List (List ℕ) → List ℕ
layout fs = encode fs ++ replicate (hdr_size - length (encode fs)) 0

-- No header is empty, and all fit in the array.
pub record IsStack (fs : List (List ℕ)) : Type 0 where
  pub filled : All (λ f. 0 < length f) fs
  pub fits : length (encode fs) ≤ hdr_size

pub encode-append : (fs gs : List (List ℕ)) → encode (fs ++ gs) ≡ encode fs ++ encode gs
encode-append [] gs = refl
encode-append (f ∷ fs) gs =
    ap (λ t. length f ∷ (f ++ t)) (encode-append fs gs)
    ∙ ap (λ t. length f ∷ t) (sym (append_assoc f (encode fs) (encode gs)))

pub length-encode-snoc :
    (fs : List (List ℕ)) (f : List ℕ)
    → length (encode (fs ++ f ∷ [])) ≡ length (encode fs) + length f + 1
length-encode-snoc [] f = omega (arith, length-append {0} f [])
length-encode-snoc (g ∷ fs) f = omega (
  arith,
  length-encode-snoc fs f,
  length-append {0} g (encode (fs ++ f ∷ [])),
  length-append {0} g (encode fs),
)

pub length-layout : (fs : List (List ℕ)) → IsStack fs → length (layout fs) ≡ hdr_size
length-layout fs v = omega (
  arith,
  v.fits,
  length-append {0} (encode fs) (replicate (hdr_size - length (encode fs)) 0),
  length-replicate {0} {A = ℕ} (hdr_size - length (encode fs)) 0,
)
