-- ===== src/Sanitize/Requests.antt =====
-- The parts of a request after the middleware (src/common/middleware/sanitizeInput.ts), and the
-- keys that its test for `$` misses.
use ceoma_api.Prelude.{
  ◌≡◌, refl, sym, ap, ◌∙◌, Bool, true, false, String, str_eq, if◌then◌else◌, arith, Bool-cases, inl,
  inr, eq_iff,
}
use ceoma_api.Sanitize.{
  Value, undefined, null, boolean, number, string, array, object, Entries, end, entry, Request,
  starts_dollar, is_plain_record, sanitize_string, assign, set_property, sanitize_value,
  sanitize_entries, overwrite, sanitize_input,
}
use ceoma_api.Sanitize.Assignments.{has, has-set_property, overwrite_object_lem}
use ceoma_api.Sanitize.Laws.{
  IsClean, HasNoOperators, EntriesHaveNoOperators, EntriesClean-HasOwnKeys, sanitize_value-IsClean,
  sanitize_value_fixed,
}

-- What the second value replaces, where the first is a record.
replaced : Value → Value → Value
replaced target sanitized = if is_plain_record target then sanitized else target

overwrite-replaced :
    (target es : Value)
    → IsClean es
    → (is_plain_record target ≡ true → is_plain_record es ≡ true)
    → overwrite target es ≡ replaced target es
unfolding replaced
overwrite-replaced (object es) (object fs) c k =
    ap object (overwrite_object_lem es fs (EntriesClean-HasOwnKeys fs c))
overwrite-replaced (object es) undefined c k = cc
overwrite-replaced (object es) null c k = cc (k refl)
overwrite-replaced (object es) (boolean b) c k = cc (k refl)
overwrite-replaced (object es) (number n) c k = cc (k refl)
overwrite-replaced (object es) (string t) c k = cc (k refl)
overwrite-replaced (object es) (array xs) c k = cc (k refl)
overwrite-replaced undefined _ c k = refl
overwrite-replaced null _ c k = refl
overwrite-replaced (boolean b) _ c k = refl
overwrite-replaced (number n) _ c k = refl
overwrite-replaced (string t) _ c k = refl
overwrite-replaced (array xs) _ c k = refl

is_plain_record-sanitize_value :
    (v : Value) → is_plain_record (sanitize_value v) ≡ is_plain_record v
unfolding sanitize_value
is_plain_record-sanitize_value undefined = refl
is_plain_record-sanitize_value null = refl
is_plain_record-sanitize_value (boolean b) = refl
is_plain_record-sanitize_value (number n) = refl
is_plain_record-sanitize_value (string t) = refl
is_plain_record-sanitize_value (array xs) = refl
is_plain_record-sanitize_value (object es) = refl

overwrite-sanitize_value :
    (v : Value) → is_plain_record v ≡ true → overwrite v (sanitize_value v) ≡ sanitize_value v
unfolding replaced
overwrite-sanitize_value v p =
    overwrite-replaced v (sanitize_value v) (sanitize_value-IsClean v)
      (λ q. is_plain_record-sanitize_value v ∙ q)
    ∙ rw p refl

-- When the middleware calls next, for a request whose parameters are a record, the body and the
-- parameters are JSON values, in which every text and every key has no control character and no
-- white space at its ends, and the own keys of an object are distinct and none is __proto__; the
-- query is as it was sent.
pub sanitize_input-IsClean :
    (req : Request)
    → is_plain_record req.params ≡ true
    → IsClean (sanitize_input req).body
      × IsClean (sanitize_input req).params
      × ((sanitize_input req).query ≡ req.query)
unfolding sanitize_input
sanitize_input-IsClean req p = (
  sanitize_value-IsClean req.body,
  rw (overwrite-sanitize_value req.params p) (sanitize_value-IsClean req.params),
  refl,
)

abbrev pub IsUsual : Value → Type 0
IsUsual v = IsClean v × HasNoOperators v

overwrite_fixed : (v : Value) → IsUsual v → overwrite v (sanitize_value v) ≡ v
unfolding replaced
overwrite_fixed v (c, o) = rw (sanitize_value_fixed v c o) (
    overwrite-replaced v v c (λ q. q)
    ∙ elim (Bool-cases (is_plain_record v)) [ inl e ↦ rw e refl | inr e ↦ rw e refl ])

-- A request whose body and parameters are JSON values whose texts and keys have no control
-- character and no white space at their ends, and whose own keys are distinct, not __proto__ and
-- do not start with a dollar sign, goes through the middleware unchanged.
pub sanitize_input_fixed :
    (req : Request) → IsUsual req.body → IsUsual req.params → sanitize_input req ≡ req
unfolding sanitize_input
sanitize_input_fixed req b p =
    rw (sanitize_value_fixed req.body b.0 b.1, overwrite_fixed req.params p) refl

has-assign :
    (k j : String) (v : Value) (es : Entries) → has j es ≡ true → has j (assign k v es) ≡ true
unfolding assign
has-assign k j v es h = elim (Bool-cases (str_eq k "__proto__")) [
  | inl e ↦ rw e h
  | inr e ↦ rw (e, has-set_property k j v es) (ground arith)
]

has-sanitize_entries :
    (j : String) (es r : Entries) → has j r ≡ true → has j (sanitize_entries es r) ≡ true
unfolding sanitize_entries
has-sanitize_entries j end r h = h
has-sanitize_entries j (entry k v es) r h =
    has-sanitize_entries j es _ (elim (Bool-cases (starts_dollar k)) [
      | inl e ↦ rw e h
      | inr e ↦ rw e (has-assign (sanitize_string k) j (sanitize_value v) r h)
    ])

starts_dollar-ne-has :
    (j : String) (es : Entries)
    → starts_dollar j ≡ true
    → has j es ≡ true
    → EntriesHaveNoOperators es
    → ◌≡◌ {A = Bool} true false
starts_dollar-ne-has j end d h o = sym h
starts_dollar-ne-has j (entry k v es) d h (f, _, o) = elim (Bool-cases (str_eq k j)) [
  | inl e ↦
      let same : k ≡ j = (eq_iff k j).0 e in
      let plain : starts_dollar j ≡ false = rw same at f in cc
  | inr e ↦ starts_dollar-ne-has j es d (rw e at h) o
]

proto_plain : (j : String) → starts_dollar j ≡ true → str_eq j "__proto__" ≡ false
proto_plain j d = elim (Bool-cases (str_eq j "__proto__")) [
  | inl e ↦
      let same : j ≡ "__proto__" = (eq_iff j "__proto__").0 e in
      let plain : starts_dollar "__proto__" ≡ true = rw same at d in absurd cc
  | inr e ↦ e
]

-- The key under which such a key is assigned is there after the loop.
has-hidden :
    (key : String) (es r : Entries)
    → has key es ≡ true
    → starts_dollar key ≡ false
    → starts_dollar (sanitize_string key) ≡ true
    → has (sanitize_string key) (sanitize_entries es r) ≡ true
unfolding sanitize_entries assign
has-hidden key end r h f d = cc
has-hidden key (entry k v es) r h f d = elim (Bool-cases (str_eq k key)) [
  | inr other ↦ has-hidden key es _ (rw other at h) f d
  | inl e ↦
      let same : k ≡ key = (eq_iff k key).0 e in
      let j = sanitize_string key in
      let kept : has j (set_property j (sanitize_value v) r) ≡ true =
        rw (has-set_property j j (sanitize_value v) r, (eq_iff j j).1 refl) refl in
      rw (same, f, proto_plain j d) (has-sanitize_entries j es _ kept)
]

-- An object that has a key, at any place, that does not start with a dollar sign but does once
-- control characters and white space are taken off, such as one with a space before the sign,
-- still has a key that starts with a dollar sign after it was sanitized.
pub sanitize_value_hidden :
    (key : String) (es : Entries)
    → has key es ≡ true
    → starts_dollar key ≡ false
    → starts_dollar (sanitize_string key) ≡ true
    → ¬ HasNoOperators (sanitize_value (object es))
unfolding sanitize_value
sanitize_value_hidden key es h f d o = absurd (
    cc (
      starts_dollar-ne-has (sanitize_string key) (sanitize_entries es end) d
        (has-hidden key es end h f d) o))
