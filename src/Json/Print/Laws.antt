-- ===== src/Json/Print/Laws.antt =====
-- encoding/json: an object is written as one line between braces.
use gibson_tool_runner.Base.{
  ℕ, zero, suc, Bytes, true, false, ◌||◌, [], ◌∷◌, ◌++◌, some, ◌≡◌, refl, ap, ◌∙◌, arith, eqb, All,
  Bool-cases, inl, inr,
}
use gibson_tool_runner.Json.{
  Value, Items, Members, null, bool, number, text, array, object, no_items, item, no_members,
  member,
}
use gibson_tool_runner.Json.Number.{State, first, next}
use gibson_tool_runner.Json.Print.{
  quote_onto, text_onto, append, print_onto, print_items, print_members, print, IsPlain, GoesOn,
  IsNumber, IsGood, AreGoodItems, AreGoodMembers,
}

quote_onto-append : (s a b : Bytes) → quote_onto s (a ++ b) ≡ quote_onto s a ++ b
unfolding quote_onto
quote_onto-append [] a b = refl
quote_onto-append (c ∷ cs) a b = elim (Bool-cases (eqb c b'"' || eqb c b'\\')) [
  | inl special ↦ rw special (ap (λ r. b'\\' ∷ c ∷ r) (quote_onto-append cs a b))
  | inr common ↦ rw common (ap (◌∷◌ c) (quote_onto-append cs a b))
]

append-append : (s a b : Bytes) → append s (a ++ b) ≡ append s a ++ b
append-append [] a b = refl
append-append (c ∷ cs) a b = ap (◌∷◌ c) (append-append cs a b)

text_onto-append : (s a b : Bytes) → text_onto s (a ++ b) ≡ text_onto s a ++ b
text_onto-append s a b = ap (◌∷◌ b'"') (quote_onto-append s (b'"' ∷ a) b)

key-append :
    (k value' b : Bytes) {value : Bytes}
    → value ≡ value' ++ b
    → text_onto k (b':' ∷ value) ≡ text_onto k (b':' ∷ value') ++ b
key-append k value' b e = ap (λ r. text_onto k (b':' ∷ r)) e ∙ text_onto-append k (b':' ∷ value') b

mutual
  unfolding print_onto

  print_onto-append : (v : Value) (a b : Bytes) → print_onto v (a ++ b) ≡ print_onto v a ++ b
  print_onto-append null a b = refl
  print_onto-append (bool true) a b = refl
  print_onto-append (bool false) a b = refl
  print_onto-append (number literal) a b = append-append literal a b
  print_onto-append (text s) a b = text_onto-append s a b
  print_onto-append (array no_items) a b = refl
  print_onto-append (array (item v is)) a b =
      ap (◌∷◌ b'[')
        (ap (print_onto v) (print_items-append is a b) ∙ print_onto-append v (print_items is a) b)
  print_onto-append (object no_members) a b = refl
  print_onto-append (object (member k v ms)) a b = ap (◌∷◌ b'{') (
      key-append k _ b (
        ap (print_onto v) (print_members-append ms a b)
        ∙ print_onto-append v (print_members ms a) b))

  print_items-append : (is : Items) (a b : Bytes) → print_items is (a ++ b) ≡ print_items is a ++ b
  print_items-append no_items a b = refl
  print_items-append (item v is) a b =
      ap (◌∷◌ b',')
        (ap (print_onto v) (print_items-append is a b) ∙ print_onto-append v (print_items is a) b)

  print_members-append :
      (ms : Members) (a b : Bytes) → print_members ms (a ++ b) ≡ print_members ms a ++ b
  print_members-append no_members a b = refl
  print_members-append (member k v ms) a b = ap (◌∷◌ b',') (
      key-append k _ b (
        ap (print_onto v) (print_members-append ms a b)
        ∙ print_onto-append v (print_members ms a) b))

print_members_end : (ms : Members) → (body : Bytes) × (print_members ms [] ≡ body ++ (b'}' ∷ []))
unfolding print_onto
print_members_end no_members = ([], refl)
print_members_end (member k v ms) =
    let (body, e) = print_members_end ms in
    (
      b',' ∷ text_onto k (b':' ∷ print_onto v body),
      ap (◌∷◌ b',')
          (key-append k _ (b'}' ∷ []) (ap (print_onto v) e ∙ print_onto-append v body (b'}' ∷ []))),
    )

-- What is written for an object stands between braces.
pub print_braces :
    (ms : Members) → (body : Bytes) × (print (object ms) ≡ b'{' ∷ (body ++ (b'}' ∷ [])))
unfolding print print_onto
print_braces no_members = ([], refl)
print_braces (member k v ms) =
    let (body, e) = print_members_end ms in
    (
      text_onto k (b':' ∷ print_onto v body),
      ap (◌∷◌ b'{')
          (key-append k _ (b'}' ∷ []) (ap (print_onto v) e ∙ print_onto-append v body (b'}' ∷ []))),
    )

-- A character that does not end a line.
abbrev Stays : ℕ → Type 0
Stays c = eqb c b'\n' ≡ false

quote_onto-Stays : (s rest : Bytes) → IsPlain s → All Stays rest → All Stays (quote_onto s rest)
unfolding quote_onto
quote_onto-Stays [] rest h r = r
quote_onto-Stays (c ∷ cs) rest ((l, u), h) r = elim (Bool-cases (eqb c b'"' || eqb c b'\\')) [
  | inl special ↦ rw special (refl, (ground arith, quote_onto-Stays cs rest h r))
  | inr common ↦ rw common (ground arith, quote_onto-Stays cs rest h r)
]

text_onto-Stays : (s rest : Bytes) → IsPlain s → All Stays rest → All Stays (text_onto s rest)
text_onto-Stays s rest h r = (refl, quote_onto-Stays s (b'"' ∷ rest) h (refl, r))

next-Stays : (s : State) (c : ℕ) {s' : State} → next s c ≡ some s' → Stays c
unfolding next
next-Stays s c h = ground arith

append-Stays :
    (s : State) (cs rest : Bytes) → GoesOn s cs → All Stays rest → All Stays (append cs rest)
append-Stays s [] rest g r = r
append-Stays s (c ∷ cs) rest (s', e, g) r = (next-Stays s c e, append-Stays s' cs rest g r)

number-Stays :
    (literal rest : Bytes) → IsNumber literal → All Stays rest → All Stays (append literal rest)
unfolding first
number-Stays [] rest g r = r
number-Stays (c ∷ cs) rest (s, e, g) r = (ground arith, append-Stays s cs rest g r)

mutual
  unfolding print_onto

  print_onto-Stays :
      (n : ℕ) (v : Value) (rest : Bytes)
      → IsGood n v
      → All Stays rest
      → All Stays (print_onto v rest)
  print_onto-Stays n null rest g r = (refl, (refl, (refl, (refl, r))))
  print_onto-Stays n (bool true) rest g r = (refl, (refl, (refl, (refl, r))))
  print_onto-Stays n (bool false) rest g r = (refl, (refl, (refl, (refl, (refl, r)))))
  print_onto-Stays n (number literal) rest g r = number-Stays literal rest g r
  print_onto-Stays n (text s) rest g r = text_onto-Stays s rest g r
  print_onto-Stays zero (array is) rest g r = elim g [ ]
  print_onto-Stays (suc n) (array no_items) rest g r = (refl, (refl, r))
  print_onto-Stays (suc n) (array (item v is)) rest (g, gs) r =
      (refl, print_onto-Stays n v (print_items is rest) g (print_items-Stays n is rest gs r))
  print_onto-Stays zero (object ms) rest g r = elim g [ ]
  print_onto-Stays (suc n) (object no_members) rest g r = (refl, (refl, r))
  print_onto-Stays (suc n) (object (member k v ms)) rest (p, g, gs) r = (
    refl,
    text_onto-Stays k (b':' ∷ print_onto v (print_members ms rest)) p
        (refl, print_onto-Stays n v (print_members ms rest) g (print_members-Stays n ms rest gs r)),
  )

  print_items-Stays :
      (n : ℕ) (is : Items) (rest : Bytes)
      → AreGoodItems n is
      → All Stays rest
      → All Stays (print_items is rest)
  print_items-Stays n no_items rest g r = (refl, r)
  print_items-Stays n (item v is) rest (g, gs) r =
      (refl, print_onto-Stays n v (print_items is rest) g (print_items-Stays n is rest gs r))

  print_members-Stays :
      (n : ℕ) (ms : Members) (rest : Bytes)
      → AreGoodMembers n ms
      → All Stays rest
      → All Stays (print_members ms rest)
  print_members-Stays n no_members rest g r = (refl, r)
  print_members-Stays n (member k v ms) rest (p, g, gs) r = (
    refl,
    text_onto-Stays k (b':' ∷ print_onto v (print_members ms rest)) p
        (refl, print_onto-Stays n v (print_members ms rest) g (print_members-Stays n ms rest gs r)),
  )

-- What is written is one line.
pub print-Stays : (n : ℕ) (v : Value) → IsGood n v → All Stays (print v)
unfolding print
print-Stays n v g = print_onto-Stays n v [] g tt
