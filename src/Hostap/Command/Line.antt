-- ===== src/Hostap/Command/Line.antt =====
-- daemon/dwpald_hostap_parse.c: the line that a command becomes.
use dwpal.Common.{
  ℕ, suc, ◌+◌, ◌-◌, ◌≡◌, ◌<◌, refl, sym, ap, subst, ◌∙◌, Bool, true, false, List, [], ◌∷◌, ◌++◌,
  Option, none, some, if◌then◌else◌, ltb, ◌==◌, length, get_or, set, blit, replicate, ◌⊎◌, inl, inr,
  arith, length-append, set-append, get_or-append, Bool-cases, ltb→lt,
}
use mathlib.Core.List.{append_assoc, append-nil}
use dwpal.Hostap.Command.{
  Result, done, failed, fault, ◌>>=◌, Param, space, value_text, Build, print, print_params,
  cmd_build, cmd_format,
}
use dwpal.Hostap.Command.Reference.{
  param_text, params_text, state, appended, print-appended, bind_inv, appended_then,
  print_params-appended,
}

-- Empty, or with a space at the end.
abbrev IsSpaced : List ℕ → Type 0
IsSpaced t = (t ≡ []) ⊎ ((s : List ℕ) × (t ≡ s ++ space ∷ []))

append-IsSpaced : (t ts : List ℕ) → IsSpaced t → IsSpaced ts → IsSpaced (t ++ ts)
append-IsSpaced t ts h (inl e) =
    subst (λ z. IsSpaced (t ++ z)) (sym e) (subst IsSpaced (sym (append-nil t)) h)
append-IsSpaced t ts h (inr (s, e)) =
    inr (t ++ s, ap (λ z. t ++ z) e ∙ sym (append_assoc t s (space ∷ [])))

value-IsSpaced :
    (pre t : List ℕ) (v : Result (Option (List ℕ)))
    → (v >>= (λ v'. elim v' [ none ↦ done [] | some u ↦ done (pre ++ (u ++ space ∷ [])) ])) ≡ done t
    → IsSpaced t
value-IsSpaced pre t (done none) h = inl (cc h)
value-IsSpaced pre t (done (some u)) h =
    let e : pre ++ (u ++ space ∷ []) ≡ t = cc h in
    inr (pre ++ u, sym e ∙ sym (append_assoc pre u (space ∷ [])))
value-IsSpaced pre t failed h = absurd (cc h)
value-IsSpaced pre t fault h = absurd (cc h)

-- The command without its last space.
without_space :
    (cmd t : List ℕ) → IsSpaced t → (u : List ℕ) × (cmd ++ (space ∷ t) ≡ u ++ space ∷ [])
without_space cmd t (inl e) = (cmd, ap (λ z. cmd ++ (space ∷ z)) e)
without_space cmd t (inr (s, e)) = (
  cmd ++ (space ∷ s),
  ap (λ z. cmd ++ (space ∷ z)) e ∙ sym (append_assoc cmd (space ∷ s) (space ∷ [])),
)

-- The last steps of `dwpald_hostap_cmd_build`.
finish : Build → Result (ℕ × List ℕ)
finish b =
    done (b.total, (if get_or b.out (b.at - 1) 0 == space then set b.out (b.at - 1) 0 else b.out))

finish-state :
    (u : List ℕ) (n : ℕ)
    → finish (state (u ++ space ∷ []) n) ≡ done (length u + 1, u ++ replicate (n + 1) 0)
unfolding finish
finish-state u n =
    let len : length (u ++ space ∷ []) ≡ length u + 1 = length-append u (space ∷ []) in
    let last : length u + 1 - 1 ≡ length u = omega arith in
    let zeros : suc n ≡ n + 1 = omega arith in
    rw
      (
        len,
        last,
        append_assoc u (space ∷ []) (replicate n 0),
        get_or-append u (space ∷ replicate n 0) 0,
        set-append u space (replicate n 0) 0,
      )
      (ap (λ k. done (length u + 1, u ++ replicate k 0)) zeros)

clear-zeros : (out : List ℕ) → blit out 0 (replicate (length out) 0) ≡ replicate (length out) 0
clear-zeros [] = refl
clear-zeros (x ∷ out) = ap (λ z. 0 ∷ z) (clear-zeros out)

-- The last steps, once the line has been printed or has not fitted.
finish-appended :
    (u : List ℕ) (n : ℕ)
    → (appended (u ++ space ∷ []) [] n >>= finish) ≡ (
        if ltb (length u + 1) n
        then done (length u + 1, u ++ replicate (n - length u) 0)
        else failed)
finish-appended u n =
    let len : length (u ++ space ∷ []) ≡ length u + 1 = length-append u (space ∷ []) in
    elim (Bool-cases (ltb (length u + 1) n)) [
      | inl e ↦
          let room : n - length (u ++ space ∷ []) + 1 ≡ n - length u =
            omega (arith, len, ltb→lt (length u + 1) n e) in
          let test : ltb (length (u ++ space ∷ [])) n ≡ true = rw len e in
          rw (test, e)
            (finish-state u (n - length (u ++ space ∷ []))
              ∙ ap (λ k. done (length u + 1, u ++ replicate k 0)) room)
      | inr e ↦ rw (len, e) refl
    ]

module _ (char_signed : Bool) (malloc_ok : ℕ → Bool) where
  params-IsSpaced :
      (ps : List Param) (t : List ℕ) → params_text char_signed malloc_ok ps ≡ done t → IsSpaced t
  unfolding params_text param_text
  params-IsSpaced [] t h = inl (cc h)
  params-IsSpaced (p ∷ ps) t h =
      let a = bind_inv (param_text char_signed malloc_ok p) _ t h in
      let b = bind_inv (params_text char_signed malloc_ok ps) _ t a.1.1 in
      subst IsSpaced (cc (b.1.1)) (
        append-IsSpaced a.0 b.0
          (value-IsSpaced p.prefix a.0 (value_text char_signed malloc_ok p.field_of) a.1.0)
          (params-IsSpaced ps b.0 b.1.0))

-- For a buffer of at least one cell, a `sprintf_s` that returns a negative number where the text does not fit,
-- and parameters that stand for the text `t`: `dwpald_hostap_cmd_build` writes the command, a space and `t`
-- without the last space, then zeros to the end of the buffer, and returns the length of the text plus one, if the text with its
-- last space and a terminator fits; otherwise it returns -1.
pub cmd_build_lem :
    (char_signed : Bool) (malloc_ok : ℕ → Bool) (out cmd : List ℕ) (ps : List Param) (t : List ℕ)
    → 0 < length out
    → params_text char_signed malloc_ok ps ≡ done t
    → (u : List ℕ) × ((cmd ++ (space ∷ t) ≡ u ++ space ∷ [])
        × (cmd_build char_signed malloc_ok none (some out) (length out) (some cmd) (some ps) ≡ (
            if ltb (length u + 1) (length out)
            then done (length u + 1, u ++ replicate (length out - length u) 0)
            else failed)))
unfolding cmd_build finish
cmd_build_lem char_signed malloc_ok out cmd ps t pos h =
    let w = without_space cmd t (params-IsSpaced char_signed malloc_ok ps t h) in
    let n = length out in
    let line : (print none (cmd ++ space ∷ []) (state [] n)
          >>= print_params char_signed malloc_ok none ps)
        ≡ appended (w.0 ++ space ∷ []) [] n =
      appended_then (cmd ++ space ∷ []) t (w.0 ++ space ∷ []) [] n
        (print none (cmd ++ space ∷ []) (state [] n)) (print_params char_signed malloc_ok none ps)
        (print-appended (cmd ++ space ∷ []) [] n) (append_assoc cmd (space ∷ []) t ∙ w.1)
        (λ lt.
          print_params-appended char_signed malloc_ok ps t (cmd ++ space ∷ [])
            (n - length (cmd ++ space ∷ [])) (omega arith) h) in
    let nonempty : (n == 0) ≡ false = ground arith in
    (
      w.0,
      (w.1, rw (nonempty, clear-zeros out) (ap (λ z. z >>= finish) line ∙ finish-appended w.0 n)),
    )

-- For a buffer of at least one cell and such a `sprintf_s`: `dwpald_hostap_cmd_format` writes the command, a space
-- and the formatted text, then zeros to the end of the buffer, and returns the length of what it wrote, if that and a terminator fit;
-- otherwise it returns -1.
pub cmd_format_lem :
    (out cmd text : List ℕ)
    → 0 < length out
    → let line = cmd ++ (space ∷ text) in
      cmd_format none (some out) (length out) (some cmd) (some text) ≡ (
        if ltb (length line) (length out)
        then done (length line, line ++ replicate (length out - length line) 0)
        else failed)
unfolding cmd_format
cmd_format_lem out cmd text pos =
    let n = length out in
    let written = print none (cmd ++ space ∷ []) (state [] n) in
    let line : (written >>= print none text) ≡ appended (cmd ++ (space ∷ text)) [] n =
      appended_then (cmd ++ space ∷ []) text (cmd ++ (space ∷ text)) [] n written (print none text)
        (print-appended (cmd ++ space ∷ []) [] n) (append_assoc cmd (space ∷ []) text)
        (λ lt. print-appended text (cmd ++ space ∷ []) (n - length (cmd ++ space ∷ []))) in
    let nonempty : (n == 0) ≡ false = ground arith in
    rw (nonempty, clear-zeros out)
      (ap (λ z. z >>= (λ b. done (b.total, b.out))) line
        ∙ (elim (Bool-cases (ltb (length (cmd ++ (space ∷ text))) n)) [
          | inl e ↦ rw e refl
          | inr e ↦ rw e refl
        ]))
