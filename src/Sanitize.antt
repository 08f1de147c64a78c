-- ===== src/Sanitize.antt =====
-- The middleware that cleans a request before it is routed
-- (src/common/middleware/sanitizeInput.ts). A value is what `unknown` can hold there: what
-- express.json, the query parser and the router put into the request. The prototype of an object is
-- left out: an assignment to `__proto__` adds no property of the object's own.
pub mod Texts
pub mod Assignments
pub mod Laws
pub mod Requests
use Prim.Native.Char.{Char, code}
use ceoma_api.Prelude.{
  ℤ, Bool, true, false, ◌&&◌, ◌||◌, List, [], ◌∷◌, String, leb, ◌==◌, str_eq, if◌then◌else◌,
}
use ceoma_api.Texts.{trim}

mutual
  pub data Value : Type 0 where
    undefined null : Value
    boolean : Bool → Value
    number : ℤ → Value
    string : String → Value
    array : Items → Value
    object : Entries → Value

  pub data Items : Type 0 where
    nil : Items
    item : Value → Items → Items

  -- The own properties of an object, in the order of `Object.entries`.
  pub data Entries : Type 0 where
    end : Entries
    entry : String → Value → Entries → Entries

-- A character that `/[\u0000-\u001F\u007F]/` matches
abbrev pub is_control : Char → Bool
is_control c = leb (code c) 31 || code c == 127

abbrev pub is_null : Char → Bool
is_null c = code c == 0

-- `replace(pattern, "")` with the flag g, for a pattern of one character
unfoldable pub remove : (Char → Bool) → String → String
remove p String.[] = ""
remove p (String.◌∷◌ c t) = let rest = remove p t in if p c then rest else String.◌∷◌ c rest

unfoldable pub sanitize_string : String → String
unfolding remove trim
sanitize_string input = trim (remove is_control (remove is_null input))

-- `key.startsWith("$")`
abbrev pub starts_dollar : String → Bool
starts_dollar String.[] = false
starts_dollar (String.◌∷◌ c t) = code c == b'$'

-- A property that is there keeps its place.
unfoldable pub set_property : String → Value → Entries → Entries
set_property k v end = entry k v end
set_property k v (entry j w es) =
    if str_eq j k then entry j v es else entry j w (set_property k v es)

-- `result[key] = value`
unfoldable pub assign : String → Value → Entries → Entries
unfolding set_property
assign k v es = if str_eq k "__proto__" then es else set_property k v es

unfoldable mutual
  unfolding sanitize_string assign

  pub sanitize_value : Value → Value
  sanitize_value undefined = string "undefined"
  sanitize_value null = null
  sanitize_value (boolean b) = boolean b
  sanitize_value (number n) = number n
  sanitize_value (string t) = string (sanitize_string t)
  sanitize_value (array xs) = array (sanitize_items xs)
  sanitize_value (object es) = object (sanitize_entries es end)

  pub sanitize_items : Items → Items
  sanitize_items nil = nil
  sanitize_items (item v xs) = item (sanitize_value v) (sanitize_items xs)

  -- The loop over the entries, with the result so far
  pub sanitize_entries : Entries → Entries → Entries
  sanitize_entries end result = result
  sanitize_entries (entry key raw es) result = sanitize_entries es (
      if starts_dollar key
      then result
      else assign (sanitize_string key) (sanitize_value raw) result)

abbrev pub is_plain_record : Value → Bool
is_plain_record (object es) = true
is_plain_record v = false

unfoldable pub own_keys : Entries → List String
own_keys end = []
own_keys (entry k v es) = k ∷ own_keys es

-- `delete target[key]`
unfoldable pub delete : String → Entries → Entries
delete k end = end
delete k (entry j w es) = if str_eq j k then es else entry j w (delete k es)

pub delete_all : List String → Entries → Entries
unfolding delete
delete_all [] es = es
delete_all (k ∷ ks) es = delete_all ks (delete k es)

pub assign_all : Entries → Entries → Entries
unfolding assign
assign_all end target = target
assign_all (entry k v es) target = assign_all es (assign k v target)

pub overwrite_object : (target sanitized : Entries) → Entries
unfolding own_keys delete_all assign_all
overwrite_object target sanitized = assign_all sanitized (delete_all (own_keys target) target)

-- `overwriteObject` on the parameters, where both values are records
abbrev pub overwrite : (target sanitized : Value) → Value
overwrite (object target) (object sanitized) = object (overwrite_object target sanitized)
overwrite target sanitized = target

pub record Request : Type 0 where
  pub body : Value
  pub query : Value
  pub params : Value

-- What a handler reads once the middleware has called `next`. The query is read through a getter of
-- Express 5, which parses the URL at each read: `overwriteObject` writes to the object of one read, and
-- the next read has the query as it was sent.
unfoldable pub sanitize_input : Request → Request
unfolding sanitize_value overwrite_object
sanitize_input req = record {
  body = sanitize_value req.body;
  query = req.query;
  params = overwrite req.params (sanitize_value req.params);
}
