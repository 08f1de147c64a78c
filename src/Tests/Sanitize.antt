-- ===== src/Tests/Sanitize.antt =====
-- Requests before and after the middleware that cleans them.
use ceoma_api.Prelude.{◌≡◌, refl, pos, true}
use ceoma_api.Sanitize.{
  Value, null, number, string, array, object, nil, item, Entries, end, entry, Request,
  starts_dollar, sanitize_string, sanitize_value, sanitize_input,
}
use ceoma_api.Sanitize.Laws.{IsClean, HasNoOperators}
use ceoma_api.Sanitize.Requests.{
  sanitize_input-IsClean, sanitize_input_fixed, sanitize_value_hidden,
}

-- A body with an operator, a key in need of trimming, and one that becomes equal to it
abbrev dirty : Value
dirty = object (
    entry "$where" (string "1") (
      entry " name" (string " Nyeri\n")
        (entry "na\0me" (array (item (string "AA ") (item null nil))) end)))

abbrev listing : Value
listing = object (entry "search" (string "\t50%") end)

abbrev request : Request
request = record { body = dirty; query = listing; params = object end }

sanitize_dirty :
    sanitize_value dirty ≡ object (entry "name" (array (item (string "AA") (item null nil))) end)
unfolding sanitize_value
sanitize_dirty = refl

sanitize_input-IsClean_example :
    IsClean (sanitize_input request).body
    × IsClean (sanitize_input request).params
    × ((sanitize_input request).query ≡ listing)
sanitize_input-IsClean_example = sanitize_input-IsClean request refl

abbrev order : Value
order = object (entry "grade" (string "AA") (entry "bags" (number (pos 300)) end))

abbrev plain_request : Request
plain_request = record { body = order; query = object end; params = object end }

order_usual : IsClean order
order_usual =
    ((refl, refl, refl), refl, refl, (refl, refl, refl), ((refl, refl, refl), refl, refl, tt, tt))

order_free : HasNoOperators order
order_free = (refl, tt, (refl, tt, tt))

sanitize_input_fixed_example : sanitize_input plain_request ≡ plain_request
sanitize_input_fixed_example = sanitize_input_fixed plain_request (order_usual, order_free) (tt, tt)

-- A space before the dollar sign
hidden : starts_dollar (sanitize_string " $where") ≡ true
unfolding sanitize_string
hidden = refl

-- The second key of a body
abbrev hiding : Entries
hiding = entry "grade" (string "AA") (entry " $where" (string "1") end)

sanitize_value_hidden_example : ¬ HasNoOperators (sanitize_value (object hiding))
sanitize_value_hidden_example = sanitize_value_hidden " $where" hiding refl refl hidden
