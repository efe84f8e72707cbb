-- ===== src/Logging/Lines.antt =====
-- The lines of the log buffer, and what was delivered of them.
use orijs.Common.{
  ℕ, ◌+◌, ◌≡◌, ◌≢◌, refl, sym, ap, ◌∙◌, none, some, List, [], ◌∷◌, ◌++◌, map, All, append_assoc,
  append-nil, arith,
}
use orijs.Websocket.{Text}
use orijs.Logging.{
  LogObject, logged, overflow_warning, on_logged, Json, split_lines, filled, with_line, line,
}

-- The calls that give what is left of each of the objects in JSON to each of the transports, in order.
abbrev pub dispatch : {A T : Type 0} → Json A → List T → List (LogObject A) → List (T × LogObject A)
dispatch json ts [] = []
dispatch json ts (l ∷ ls) = map (λ t. (t, on_logged json.parsed l)) ts ++ dispatch json ts ls

-- The objects of the logger among those delivered.
abbrev pub logged_of : {A : Type 0} → List (LogObject A) → List A
logged_of [] = []
logged_of (logged a ∷ ls) = a ∷ logged_of ls
logged_of (overflow_warning now n ∷ ls) = logged_of ls

-- How many dropped logs the warnings among them report.
abbrev pub reported : {A : Type 0} → List (LogObject A) → ℕ
reported [] = 0
reported (logged a ∷ ls) = reported ls
reported (overflow_warning now n ∷ ls) = n + reported ls

module _ {A : Type 0} where
  pub logged_of-append :
      (xs ys : List (LogObject A)) → logged_of (xs ++ ys) ≡ logged_of xs ++ logged_of ys
  logged_of-append [] ys = refl
  logged_of-append (logged a ∷ xs) ys = ap (λ l. a ∷ l) (logged_of-append xs ys)
  logged_of-append (overflow_warning now n ∷ xs) ys = logged_of-append xs ys

  pub reported-append :
      (xs ys : List (LogObject A)) → reported (xs ++ ys) ≡ reported xs + reported ys
  reported-append [] ys = omega arith
  reported-append (logged a ∷ xs) ys = reported-append xs ys
  reported-append (overflow_warning now n ∷ xs) ys = omega (arith, reported-append xs ys)

  pub logged_of-logged : (xs : List A) → logged_of (map logged xs) ≡ xs
  logged_of-logged [] = refl
  logged_of-logged (a ∷ xs) = ap (λ l. a ∷ l) (logged_of-logged xs)

  pub reported-logged : (xs : List A) → reported (map logged xs) ≡ 0
  reported-logged [] = refl
  reported-logged (a ∷ xs) = reported-logged xs

some_is_not_none : {A : Type 0} {B : Type 0} (a : A) → some a ≡ none → B
some_is_not_none a h = cc

module _ {A : Type 0} (json : Json A) where
  abbrev pub text_of : List (LogObject A) → Text
  text_of [] = []
  text_of (l ∷ ls) = line json l ++ text_of ls

  pub text_of-append : (xs ys : List (LogObject A)) → text_of (xs ++ ys) ≡ text_of xs ++ text_of ys
  text_of-append [] ys = refl
  text_of-append (x ∷ xs) ys =
      ap (λ l. line json x ++ l) (text_of-append xs ys)
      ∙ sym (append_assoc (line json x) (text_of xs) (text_of ys))

  -- One line off a text.
  split_lines-line :
      (cs rest : Text)
      → All (λ c. c ≢ 10) cs
      → split_lines (cs ++ (10 ∷ rest)) ≡ cs ∷ split_lines rest
  unfolding split_lines
  split_lines-line [] rest h = refl
  split_lines-line (c ∷ cs) rest h = rw (split_lines-line cs rest h.1) (ground (arith, h.0))

  -- The lines of a buffer are the objects in it.
  pub filled-text_of :
      (ls : List (LogObject A)) → filled (split_lines (text_of ls)) ≡ map json.stringify ls
  unfolding split_lines
  filled-text_of [] = refl
  filled-text_of (l ∷ ls) =
      ap (λ t. filled (split_lines t)) (append_assoc (json.stringify l) (10 ∷ []) (text_of ls))
      ∙ ap filled
          (split_lines-line (json.stringify l) (text_of ls) (json.stringify_has_no_newline l))
      ∙ ap (with_line (json.stringify l)) (filled-text_of ls)
      ∙ not_empty (json.stringify l) refl
    where
      not_empty :
          (t : Text)
          → json.stringify l ≡ t
          → with_line t (map json.stringify ls) ≡ t ∷ map json.stringify ls
      not_empty [] e =
          some_is_not_none (on_logged json.parsed l)
            (sym (json.parse-stringify l) ∙ ap json.parse e ∙ json.parse_nothing)
      not_empty (c ∷ cs) e = refl

  pub text_of-snoc :
      (pending : List A) (a : A)
      → text_of (map logged pending) ++ line json (logged a)
        ≡ text_of (map logged (pending ++ (a ∷ [])))
  text_of-snoc [] a = sym (append-nil (line json (logged a)))
  text_of-snoc (x ∷ pending) a =
      append_assoc (line json (logged x)) (text_of (map logged pending)) (line json (logged a))
      ∙ ap (λ t. line json (logged x) ++ t) (text_of-snoc pending a)
