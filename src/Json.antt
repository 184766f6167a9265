-- ===== src/Json.antt =====
-- The values that the program writes as JSON files and reads back. `json.dumps` and `json.loads`
-- are taken to be inverse to one another, so that a file stands for the value that it holds; its
-- numbers are the natural ones.
use tftp_os.Prelude.{ℕ, ◌≡◌, refl, Bool, Option, none, some, if◌then◌else◌, ◌==◌, text_eq}
use tftp_os.Prelude.Text.{Text}
use tftp_os.Result.{Result, ok, raise, key_error, type_error}

mutual
  pub data Json : Type 0 where
    null : Json
    bool : Bool → Json
    num : ℕ → Json
    text : Text → Json
    arr : Items → Json
    obj : Fields → Json

  pub data Items : Type 0 where
    nil : Items
    cons : Json → Items → Items

  pub data Fields : Type 0 where
    end : Fields
    field : Text → Json → Fields → Fields

-- d.get(k)
unfoldable pub field? : Text → Fields → Option Json
field? k end = none
field? k (field j v fs) = if j == k then some v else field? k fs

need : Option Json → Result Json
need none = raise key_error
need (some v) = ok v

-- d[k]
unfoldable pub item : Text → Fields → Result Json
unfolding need field?
item k fs = need (field? k fs)

or_default : Option Json → Json → Json
or_default none v = v
or_default (some w) v = w

-- d.get(k, v)
unfoldable pub item_or : Text → Json → Fields → Json
unfolding or_default field?
item_or k v fs = or_default (field? k fs) v

-- Reads of the type that the program expects. Python does not look at the type here.
unfoldable pub as_text : Json → Result Text
as_text (text t) = ok t
as_text _ = raise type_error

unfoldable pub as_bool : Json → Result Bool
as_bool (bool b) = ok b
as_bool _ = raise type_error

unfoldable pub as_num : Json → Result ℕ
as_num (num n) = ok n
as_num _ = raise type_error

unfoldable pub as_fields : Json → Result Fields
as_fields (obj fs) = ok fs
as_fields _ = raise type_error

unfoldable pub as_items : Json → Result Items
as_items (arr xs) = ok xs
as_items _ = raise type_error

unfoldable pub as_option_num : Json → Result (Option ℕ)
as_option_num null = ok none
as_option_num (num n) = ok (some n)
as_option_num _ = raise type_error

unfoldable pub as_option_text : Json → Result (Option Text)
as_option_text null = ok none
as_option_text (text t) = ok (some t)
as_option_text _ = raise type_error

unfoldable pub option_num : Option ℕ → Json
option_num none = null
option_num (some n) = num n

unfoldable pub option_text : Option Text → Json
option_text none = null
option_text (some t) = text t

pub as_option_num-option_num : (o : Option ℕ) → as_option_num (option_num o) ≡ ok o
unfolding as_option_num option_num
as_option_num-option_num none = refl
as_option_num-option_num (some n) = refl

pub as_option_text-option_text : (o : Option Text) → as_option_text (option_text o) ≡ ok o
unfolding as_option_text option_text
as_option_text-option_text none = refl
as_option_text-option_text (some n) = refl
