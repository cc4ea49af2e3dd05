-- ===== src/Hostap/Command/Reference.antt =====
-- daemon/dwpald_hostap_parse.c: a command against the text that its parameters stand for.
use dwpal.Common.{
  ℕ, suc, ◌+◌, ◌-◌, ◌≡◌, ◌<◌, refl, sym, ap, subst, ◌∙◌, Bool, false, List, [], ◌∷◌, ◌++◌, Option,
  none, some, if◌then◌else◌, ltb, length, blit, replicate, inl, inr, arith, length-append,
  length-replicate, blit-append, replicate-append, Bool-cases, ltb→lt, lt→ltb,
}
use mathlib.Core.List.{append_assoc, append-nil}
use dwpal.Hostap.Command.{
  Result, done, failed, fault, ◌>>=◌, Param, space, value_text, Build, print, print_param,
  print_params,
}

-- What one parameter adds to the command.
unfoldable pub param_text : Bool → (ℕ → Bool) → Param → Result (List ℕ)
param_text char_signed malloc_ok p =
    value_text char_signed malloc_ok p.field_of
    >>= (λ v. elim v [ none ↦ done [] | some t ↦ done (p.prefix ++ (t ++ space ∷ [])) ])

unfoldable pub params_text : Bool → (ℕ → Bool) → List Param → Result (List ℕ)
params_text char_signed malloc_ok [] = done []
params_text char_signed malloc_ok (p ∷ ps) = do
  t ← param_text char_signed malloc_ok p
  ts ← params_text char_signed malloc_ok ps
  done (t ++ ts)

-- The locals when a text has been printed and `n` cells are left.
abbrev pub state : List ℕ → ℕ → Build
state txt n = record { out = txt ++ replicate n 0; at = length txt; size = n; total = length txt }

abbrev pub appended : List ℕ → List ℕ → ℕ → Result Build
appended t txt n = if ltb (length t) n then done (state (txt ++ t) (n - length t)) else failed

blit_zeros :
    (txt t : List ℕ) (n : ℕ)
    → length t < n
    → blit (txt ++ replicate n 0) (length txt) (t ++ 0 ∷ [])
      ≡ (txt ++ t) ++ replicate (n - length t) 0
blit_zeros txt t n h =
    let m = n - length t - 1 in
    let sum : n ≡ length t + 1 + m = omega arith in
    let zeros : replicate n 0 ≡ replicate (length t + 1) 0 ++ replicate m 0 =
      ap (λ k. replicate {A = ℕ} k 0) sum ∙ sym (replicate-append (length t + 1) m 0) in
    let last : suc m ≡ n - length t = omega arith in
    ap (λ z. blit (txt ++ z) (length txt) (t ++ 0 ∷ [])) zeros
    ∙ blit-append txt (replicate (length t + 1) 0) (replicate m 0) (t ++ 0 ∷ [])
        (length-append t (0 ∷ []) ∙ sym (length-replicate (length t + 1) 0))
    ∙ ap (λ z. txt ++ z) (append_assoc t (0 ∷ []) (replicate m 0))
    ∙ sym (append_assoc txt t (0 ∷ replicate m 0))
    ∙ ap (λ k. (txt ++ t) ++ replicate {A = ℕ} k 0) last

pub print-appended : (t txt : List ℕ) (n : ℕ) → print none t (state txt n) ≡ appended t txt n
unfolding print
print-appended t txt n = elim (Bool-cases (ltb (length t) n)) [
  | inl e ↦ rw e (rw (blit_zeros txt t n (ltb→lt _ _ e), length-append txt t) refl)
  | inr e ↦ rw e refl
]

appended_nil : (txt : List ℕ) (n : ℕ) → 0 < n → done (state txt n) ≡ appended [] txt n
appended_nil txt n h =
    let same : n ≡ n - 0 = omega arith in
    rw (lt→ltb 0 n h, append-nil txt) (ap (λ k. done (state txt k)) same)

-- A text that is printed behind another is printed as both at once.
appended-append :
    (t ts txt : List ℕ) (n : ℕ)
    → length t < n
    → appended ts (txt ++ t) (n - length t) ≡ appended (t ++ ts) txt n
appended-append t ts txt n h =
    let rest : n - length t - length ts ≡ n - length (t ++ ts) =
      omega (arith, length-append t ts) in
    let test : ltb (length ts) (n - length t) ≡ ltb (length (t ++ ts)) n =
      rw (length-append t ts) (ground arith) in
    rw (test, append_assoc txt t ts, rest) refl

print_value :
    (pre txt t : List ℕ) (n : ℕ) (v : Result (Option (List ℕ)))
    → 0 < n
    → (v >>= (λ v'. elim v' [ none ↦ done [] | some u ↦ done (pre ++ (u ++ space ∷ [])) ])) ≡ done t
    → (v >>= (λ v'. elim v' [
      | none ↦ done (state txt n)
      | some u ↦ print none (pre ++ (u ++ space ∷ [])) (state txt n)
    ]))
      ≡ appended t txt n
print_value pre txt t n (done none) pos h =
    let e : [] ≡ t = cc h in
    subst (λ z. done (state txt n) ≡ appended z txt n) e (appended_nil txt n pos)
print_value pre txt t n (done (some u)) pos h =
    let e : pre ++ (u ++ space ∷ []) ≡ t = cc h in
    subst (λ z. print none (pre ++ (u ++ space ∷ [])) (state txt n) ≡ appended z txt n) e
      (print-appended (pre ++ (u ++ space ∷ [])) txt n)
print_value pre txt t n failed pos h = absurd (cc h)
print_value pre txt t n fault pos h = absurd (cc h)

pub bind_inv :
    {A B : Type 0} (m : Result A) (f : A → Result B) (b : B)
    → (m >>= f) ≡ done b
    → (a : A) × ((m ≡ done a) × (f a ≡ done b))
bind_inv (done a) f b h = (a, (refl, h))
bind_inv failed f b h = absurd (cc h)
bind_inv fault f b h = absurd (cc h)

-- A text printed behind another that fits, or that has failed already.
pub appended_then :
    (a b t txt : List ℕ) (n : ℕ) (m : Result Build) (k : Build → Result Build)
    → m ≡ appended a txt n
    → a ++ b ≡ t
    → (length a < n → k (state (txt ++ a) (n - length a)) ≡ appended b (txt ++ a) (n - length a))
    → (m >>= k) ≡ appended t txt n
appended_then a b t txt n m k first e next =
    let long : ltb (length a) n ≡ false → ltb (length t) n ≡ false =
      λ l. subst (λ z. ltb (length z) n ≡ false) e (rw (length-append a b) (ground arith)) in
    ap (λ z. z >>= k) first ∙ (elim (Bool-cases (ltb (length a) n)) [
      | inl fits ↦
          let lt = ltb→lt (length a) n fits in
          rw fits (next lt ∙ appended-append a b txt n lt ∙ ap (λ z. appended z txt n) e)
      | inr e' ↦ rw (e', long e') refl
    ])

module _ (char_signed : Bool) (malloc_ok : ℕ → Bool) where
  pub print_params-appended :
      (ps : List Param) (t txt : List ℕ) (n : ℕ)
      → 0 < n
      → params_text char_signed malloc_ok ps ≡ done t
      → print_params char_signed malloc_ok none ps (state txt n) ≡ appended t txt n
  unfolding params_text param_text print_params print_param
  print_params-appended [] t txt n pos h =
      let e : [] ≡ t = cc h in
      subst (λ z. done (state txt n) ≡ appended z txt n) e (appended_nil txt n pos)
  print_params-appended (p ∷ ps) t txt n pos h =
      let a = bind_inv (param_text char_signed malloc_ok p) _ t h in
      let b = bind_inv (params_text char_signed malloc_ok ps) _ t a.1.1 in
      let first : print_param char_signed malloc_ok none p (state txt n) ≡ appended a.0 txt n =
        print_value p.prefix txt a.0 n (value_text char_signed malloc_ok p.field_of) pos a.1.0 in
      appended_then a.0 b.0 t txt n (print_param char_signed malloc_ok none p (state txt n))
        (print_params char_signed malloc_ok none ps) first (cc (b.1.1))
        (λ lt. print_params-appended ps b.0 (txt ++ a.0) (n - length a.0) (omega arith) b.1.0)
