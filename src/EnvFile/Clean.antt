-- ===== src/EnvFile/Clean.antt =====
-- What `parse_env_file` and `_load_env_file` can put into the environment.
use win_validator.Base.{
  ◌≡◌, refl, Bool, true, false, [], ◌∷◌, ◌++◌, Text, Dict, insert, text_instance, text_eq,
  text_eq_sound, Outcome, ok, Ensures, Ensures->>=, any, All, mem_code, arith, if◌then◌else◌,
  Bool-cases, inl, inr, subst,
}
use win_validator.Utf8.{Bytes, decode}
use win_validator.EnvFile.{
  Mode, pre_key, key, pre_value, value, Parser, Refusal, is_surrogate, is_name, cut, push,
  end_assignment, step, walk, start, finish, trim_value, in_assignment, parse_text, parse_env_file,
}

-- A name that systemd accepts, with no byte in the name or the value that is not UTF-8.
abbrev pub IsClean : Text × Text → Type 0
IsClean (k, v) = (is_name k ≡ true) × (any is_surrogate (k ++ v) ≡ false)

-- A dictionary keeps what holds of its entries and of the entry that is set.
insert-All :
    (P : Text × Text → Type 0) (k v : Text) (d : Dict Text Text)
    → P (k, v)
    → All P d
    → All P (insert k v d)
insert-All P k v [] h ds = (h, tt)
insert-All P k v ((j, w) ∷ d) h ds = elim (Bool-cases (text_eq k j)) [
  | inl same ↦ rw same (subst (λ i. P (i, v)) (text_eq_sound k j same) h, ds.1)
  | inr other ↦ rw other (ds.0, insert-All P k v d h ds.1)
]

abbrev Keeps : Outcome Refusal Parser → Type 0
Keeps = Ensures (λ q. All IsClean q.out)

push-IsClean : (p : Parser) → All IsClean p.out → Keeps (push p)
unfolding push
push-IsClean p c = elim (Bool-cases (any is_surrogate (cut p.key_ws p.key_text ++ p.val))) [
  | inl bad ↦ rw bad tt
  | inr good ↦ elim (Bool-cases (is_name (cut p.key_ws p.key_text))) [
    | inl name ↦ rw (good, name) (insert-All IsClean _ _ _ (name, good) c)
    | inr other ↦ rw (good, other) c
  ]
]

end_assignment-IsClean : (p : Parser) → All IsClean p.out → Keeps (end_assignment p)
unfolding end_assignment
end_assignment-IsClean p c =
    Ensures->>= (λ q. All IsClean q.out) (λ q. All IsClean q.out) (push p) _ (push-IsClean p c)
      (λ q h. h)

step-IsClean : (m : Mode) (c : _) (p : Parser) → All IsClean p.out → Keeps (step m c p)
unfolding step
step-IsClean pre_key c p h = ground arith
step-IsClean key c p h = ground arith
step-IsClean pre_value c p h = ground (arith, end_assignment-IsClean p h)
step-IsClean value c p h =
    ground (arith, end_assignment-IsClean (record p { val = cut p.val_ws p.val }) h)
step-IsClean _ c p h = ground arith

walk-IsClean : (s : Text) (p : Parser) → All IsClean p.out → Keeps (walk s p)
unfolding walk
walk-IsClean [] p h = h
walk-IsClean (c ∷ s) p h =
    Ensures->>= (λ q. All IsClean q.out) (λ q. All IsClean q.out) (step p.st c p) (walk s)
      (step-IsClean p.st c p h) (walk-IsClean s)

trim_value-out : (m : Mode) (p : Parser) → (trim_value m p).out ≡ p.out
trim_value-out value p = refl
trim_value-out _ p = refl

finish-IsClean : (p : Parser) → All IsClean p.out → Ensures (λ r. All IsClean r.0) (finish p)
unfolding finish
finish-IsClean p h =
    Ensures->>= (λ q. All IsClean q.out) (λ r. All IsClean r.0)
      (if in_assignment p.st then push (trim_value p.st p) else ok p) _
      (elim (Bool-cases (in_assignment p.st)) [
        | inl open_one ↦
            rw open_one (push-IsClean (trim_value p.st p) (rw (trim_value-out p.st p) h))
        | inr closed ↦ rw closed h
      ])
      (λ q k. k)

parse_env_file-Ensures : (file : Bytes) → Ensures (λ r. All IsClean r.0) (parse_env_file file)
unfolding parse_env_file parse_text
parse_env_file-Ensures file = elim (Bool-cases (mem_code 0 file)) [
  | inl nul ↦ rw nul tt
  | inr clean ↦ rw clean (
      Ensures->>= (λ q. All IsClean q.out) (λ r. All IsClean r.0) (walk (decode file) start) finish
        (walk-IsClean (decode file) start tt) finish-IsClean)
]

-- Whatever the file holds: if the parser accepts it, then every assignment that it gives has a
-- valid name, and neither its name nor its value holds a byte that is not UTF-8.
pub parse_env_file-IsClean :
    (file : Bytes) {seen : Dict Text Text} {unterminated : Bool}
    → parse_env_file file ≡ ok (seen, unterminated)
    → All IsClean seen
parse_env_file-IsClean file h =
    subst (Ensures (λ r. All IsClean r.0)) h (parse_env_file-Ensures file)
