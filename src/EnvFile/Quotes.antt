-- ===== src/EnvFile/Quotes.antt =====
-- Comments, values without quotes, and a quote that is never closed.
use win_validator.Base.{
  ℕ, ◌≡◌, refl, true, false, [], ◌∷◌, ◌++◌, append-nil, Text, ok, any, all, &&-true, ||-false, ◌==◌,
  text_instance,
}
use win_validator.EnvFile.{
  comment, pre_key, dq, sq, Parser, is_nl, is_comment, is_esc, name_char, name_start, push, step,
  walk, start, finish, parse_text,
}
use win_validator.EnvFile.Clean.{IsClean}
use win_validator.EnvFile.RoundTrip.{walk-key, name_at_start, plain_in_quotes, snoc}

-- A comment is skipped to the end of its line.
walk-comment :
    (t rest : Text) (p : Parser) (n : ℕ)
    → any is_nl t ≡ false
    → is_nl n ≡ true
    → walk (t ++ n ∷ rest) (record p { st = comment }) ≡ walk rest (record p { st = pre_key })
unfolding walk step
walk-comment [] rest p n h e = rw e
walk-comment (c ∷ t) rest p n h e =
    let (here, later) = ||-false (is_nl c) (any is_nl t) h in
    rw here (walk-comment t rest p n later e)

-- A line that begins with # or ; means nothing, whatever quotes, backslashes and equals signs it
-- holds, where an assignment could begin.
pub parse_text_comment :
    (sign : ℕ) (t : Text) (n : ℕ) (rest : Text)
    → is_comment sign ≡ true
    → any is_nl t ≡ false
    → is_nl n ≡ true
    → parse_text (sign ∷ t ++ n ∷ rest) ≡ parse_text rest
unfolding parse_text walk step
parse_text_comment sign t n rest s h e = rw (s, walk-comment t rest start n h e)

-- Everything behind an opening quote, up to the end of the text, is the value.
walk_single :
    (t u : Text) (p : Parser)
    → any (λ c. c == 39) t ≡ false
    → walk t (record p { st = sq; val = u }) ≡ ok (record p { st = sq; val = u ++ t })
unfolding walk step
walk_single [] u p h = rw (append-nil u)
walk_single (c ∷ t) u p h =
    let (here, later) = ||-false (c == 39) (any (λ c. c == 39) t) h in
    rw (here, ← snoc u c t) (walk_single t (u ++ c ∷ []) p later)

walk_double :
    (t u : Text) (p : Parser)
    → any is_esc t ≡ false
    → walk t (record p { st = dq; val = u }) ≡ ok (record p { st = dq; val = u ++ t })
unfolding walk step
walk_double [] u p h = rw (append-nil u)
walk_double (c ∷ t) u p h =
    let (here, later) = ||-false (is_esc c) (any is_esc t) h in
    let (a, b) = plain_in_quotes c here in
    rw (a, b, ← snoc u c t) (walk_double t (u ++ c ∷ []) p later)

-- NAME=" at the start of the text, with none of the four characters that a backslash can escape
-- behind it (so no closing quote): all the rest, further lines included, is the value of NAME and
-- the only assignment, and the parser reports the open quote.
pub parse_text_open_double :
    (k t : Text)
    → IsClean (k, t)
    → any is_esc t ≡ false
    → parse_text (k ++ b'=' ∷ b'"' ∷ t) ≡ ok ((k, t) ∷ [], true)
unfolding parse_text walk step finish push
parse_text_open_double [] t h e = cc h.0
parse_text_open_double (c ∷ k) t h e =
    let (s, n) = &&-true (name_start c) (all name_char k) h.0 in
    let (a, b, d) = name_at_start c s in
    rw
      (
        a,
        b,
        d,
        walk-key k (b'"' ∷ t) (c ∷ []) start n,
        walk_double t [] (record start { key_text = c ∷ k }) e,
        h.1,
        h.0,
      )
      refl

-- The same for NAME=' with no single quote behind it.
pub parse_text_open_single :
    (k t : Text)
    → IsClean (k, t)
    → any (λ c. c == 39) t ≡ false
    → parse_text (k ++ b'=' ∷ 39 ∷ t) ≡ ok ((k, t) ∷ [], true)
unfolding parse_text walk step finish push
parse_text_open_single [] t h e = cc h.0
parse_text_open_single (c ∷ k) t h e =
    let (s, n) = &&-true (name_start c) (all name_char k) h.0 in
    let (a, b, d) = name_at_start c s in
    rw
      (
        a,
        b,
        d,
        walk-key k (39 ∷ t) (c ∷ []) start n,
        walk_single t [] (record start { key_text = c ∷ k }) e,
        h.1,
        h.0,
      )
      refl
