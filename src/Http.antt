-- ===== src/Http.antt =====
-- The parts of an Express request that the middleware reads, and the text operations it uses.
use ceoma_api.Prelude.{
  Bool, true, false, Option, none, some, List, [], ◌∷◌, String, str_eq, if◌then◌else◌,
}
use ceoma_api.Store.{AuthContext}

-- Node's parser hands over the methods of a closed list, in upper case.
pub data Method : Type 0 where
  get head options post put patch delete other : Method

-- A header that may be repeated is a list of its values. `body_text` is `stableStringify(req.body)`.
pub record Request : Type 0 where
  pub method : Method
  pub path : String
  pub original_url : String
  pub ip : String
  pub body_text : String
  pub auth : Option AuthContext
  pub content_type : Option String
  pub idempotency_key : List String
  pub authorization : Option String
  pub x_api_key : List String
  pub origin : Option String
  pub x_csrf_token : List String
  pub csrf_cookie : Option String

-- `Array.isArray(value) ? value[0] : value`
abbrev pub first {ℓ} : {A : Type ℓ} → List A → Option A
first [] = none
first (x ∷ _) = some x

-- The empty text is falsy.
abbrev pub truthy : Option String → Option String
truthy none = none
truthy (some t) = if str_eq t "" then none else some t

-- `MUTATING_METHODS.has`
abbrev pub is_mutating : Method → Bool
is_mutating Method.post = true
is_mutating Method.put = true
is_mutating Method.patch = true
is_mutating Method.delete = true
is_mutating _ = false

abbrev pub method_name : Method → String
method_name Method.get = "GET"
method_name Method.head = "HEAD"
method_name Method.options = "OPTIONS"
method_name Method.post = "POST"
method_name Method.put = "PUT"
method_name Method.patch = "PATCH"
method_name Method.delete = "DELETE"
method_name Method.other = "TRACE"
