-- ===== src/Config/Read.antt =====
-- Reads of one field of a table at its type: d[k], and d.get(k, default).
use tftp_os.Prelude.{ℕ, Bool, Option, none, some, List, [], ◌∷◌, truthy, if◌then◌else◌}
use tftp_os.Prelude.Text.{Text}
use tftp_os.Result.{Result, ok, ◌>>=◌}
use tftp_os.Json.{
  null, bool, num, text, arr, obj, Items, nil, cons, Fields, end, item, item_or, as_text, as_bool,
  as_num, as_fields, as_items, as_option_text,
}

unfoldable pub need_text : Text → Fields → Result Text
unfolding item as_text
need_text k fs = item k fs >>= as_text

unfoldable pub text_or : Text → Text → Fields → Result Text
unfolding item_or as_text
text_or k t fs = as_text (item_or k (text t) fs)

unfoldable pub num_or : Text → ℕ → Fields → Result ℕ
unfolding item_or as_num
num_or k n fs = as_num (item_or k (num n) fs)

unfoldable pub bool_or : Text → Bool → Fields → Result Bool
unfolding item_or as_bool
bool_or k b fs = as_bool (item_or k (bool b) fs)

unfoldable pub option_text_of : Text → Fields → Result (Option Text)
unfolding item_or as_option_text
option_text_of k fs = as_option_text (item_or k null fs)

-- d.get(k, {})
unfoldable pub fields_of : Text → Fields → Result Fields
unfolding item_or as_fields
fields_of k fs = as_fields (item_or k (obj end) fs)

-- d.get(k, [])
unfoldable pub items_of : Text → Fields → Result Items
unfolding item_or as_items
items_of k fs = as_items (item_or k (arr nil) fs)

unfoldable pub texts_of_items : Items → Result (List Text)
unfolding as_text
texts_of_items nil = ok []
texts_of_items (cons v items) = do t ← as_text v; ts ← texts_of_items items; ok (t ∷ ts)

unfoldable pub texts_of : Text → Fields → Result (List Text)
unfolding items_of texts_of_items
texts_of k fs = items_of k fs >>= texts_of_items

-- The tables of a list, each read in the same way.
unfoldable pub each_table : {A : Type 0} → (Fields → Result A) → Items → Result (List A)
unfolding as_fields
each_table read nil = ok []
each_table read (cons v items) = do
  fs ← as_fields v
  a ← read fs
  rest ← each_table read items
  ok (a ∷ rest)

-- a or b, and x if x else None
abbrev pub or_text : Option Text → Option Text → Option Text
or_text none b = b
or_text (some t) b = if truthy t then some t else b

abbrev pub if_text : Option Text → Option Text
if_text none = none
if_text (some t) = if truthy t then some t else none
