-- ===== src/Sanitize/Assignments.antt =====
-- Assignments to the properties of an object, and `overwriteObject`
-- (src/common/middleware/sanitizeInput.ts).
use ceoma_api.Prelude.{
  ◌≡◌, refl, sym, ap, ◌∙◌, Bool, false, ◌||◌, String, str_eq, arith, ||-eq-false, eq_iff,
}
use ceoma_api.Sanitize.{
  Value, Entries, end, entry, set_property, assign, own_keys, delete, delete_all, assign_all,
  overwrite_object,
}

abbrev pub has : String → Entries → Bool
has k end = false
has k (entry j w es) = str_eq j k || has k es

abbrev pub append : Entries → Entries → Entries
append end es = es
append (entry k v r) es = entry k v (append r es)

-- The keys that an object literal can have as its own by assignments: distinct, and not `__proto__`.
abbrev pub HasOwnKeys : Entries → Type 0
HasOwnKeys end = Unit {0}
HasOwnKeys (entry k v es) = (str_eq k "__proto__" ≡ false) × (has k es ≡ false) × HasOwnKeys es

abbrev Apart : Entries → Entries → Type 0
Apart end r = Unit {0}
Apart (entry k v es) r = (has k r ≡ false) × Apart es r

pub has-set_property :
    (k j : String) (v : Value) (es : Entries)
    → has j (set_property k v es) ≡ (str_eq k j || has j es)
unfolding set_property
has-set_property k j v end = refl
has-set_property k j v (entry i w es) =
    ground (arith, eq_iff i k, eq_iff i j, eq_iff k j, has-set_property k j v es)

set_property-append :
    (k : String) (v : Value) (r : Entries)
    → has k r ≡ false
    → set_property k v r ≡ append r (entry k v end)
unfolding set_property
set_property-append k v end h = refl
set_property-append k v (entry j w r) h =
    let (front, back) = ||-eq-false (str_eq j k) (has k r) h in
    rw front (ap (entry j w) (set_property-append k v r back))

append_assoc : (r s t : Entries) → append (append r s) t ≡ append r (append s t)
append_assoc end s t = refl
append_assoc (entry k v r) s t = ap (entry k v) (append_assoc r s t)

has-append :
    (j k : String) (v : Value) (r : Entries)
    → has j r ≡ false
    → str_eq k j ≡ false
    → has j (append r (entry k v end)) ≡ false
has-append j k v end h e = rw e
has-append j k v (entry i w r) h e =
    let (front, back) = ||-eq-false (str_eq i j) (has j r) h in rw front (has-append j k v r back e)

str_eq_comm : (a b : String) → str_eq a b ≡ false → str_eq b a ≡ false
str_eq_comm a b h = ground (arith, eq_iff a b, eq_iff b a)

Apart-append :
    (es r : Entries) (k : String) (v : Value)
    → Apart es r
    → has k es ≡ false
    → Apart es (append r (entry k v end))
Apart-append end r k v a h = tt
Apart-append (entry j w es) r k v (f, a) h =
    let (front, back) = ||-eq-false (str_eq j k) (has k es) h in
    (has-append j k v r f (str_eq_comm j k front), Apart-append es r k v a back)

assign_all-append : (es r : Entries) → HasOwnKeys es → Apart es r → assign_all es r ≡ append r es
unfolding assign_all assign
assign_all-append end r _ _ = sym (append-end r)
  where
    append-end : (s : Entries) → append s end ≡ s
    append-end end = refl
    append-end (entry k v s) = ap (entry k v) (append-end s)
assign_all-append (entry k v es) r (p, fresh, own) (f, a) =
    rw (p, set_property-append k v r f)
      (assign_all-append es (append r (entry k v end)) own (Apart-append es r k v a fresh)
        ∙ append_assoc r (entry k v end) es)

Apart-end : (es : Entries) → Apart es end
Apart-end end = tt
Apart-end (entry k v es) = (refl, Apart-end es)

-- Assignments to an empty object copy such an object.
pub assign_all-end : (es : Entries) → HasOwnKeys es → assign_all es end ≡ es
assign_all-end es own = assign_all-append es end own (Apart-end es)

delete_all-own_keys : (es : Entries) → delete_all (own_keys es) es ≡ end
unfolding delete_all delete own_keys
delete_all-own_keys end = refl
delete_all-own_keys (entry k v es) =
    rw ((eq_iff k k).1 refl, delete_all, delete) (delete_all-own_keys es)

-- Nothing of the old object is left, and it has the properties of the new one in its order.
pub overwrite_object_lem : (target es : Entries) → HasOwnKeys es → overwrite_object target es ≡ es
unfolding overwrite_object
overwrite_object_lem target es own = rw (delete_all-own_keys target) (assign_all-end es own)
