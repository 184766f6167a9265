-- ===== src/Secrets/Environment.antt =====
-- EnvironmentSecretsProvider: the secrets are the variables of the environment whose names start with
-- a prefix; a key stands for the variable of its upper case.
use tftp_os.Prelude.{
  ◌≡◌, refl, ◌∙◌, ap, arith, ◌&&◌, Option, none, some, List, [], ◌∷◌, ◌++◌, codes, text_eq,
  text_beq, ◌==◌, if◌then◌else◌, upper, starts_with, length, nat_beq_iff,
}
use tftp_os.Prelude.Recent.{drop}
use tftp_os.Prelude.Text.{Text}
use tftp_os.Prelude.Sort.{sort, text_le}
use tftp_os.Dict
use tftp_os.Dict.{Dict}
use tftp_os.Dict.Laws.{get-put, get-remove, has_key-get, among}
use tftp_os.Secrets.{SecretsProvider, IsProvider}
use tftp_os.Dict.Listed.{among-sort}

-- os.environ
abbrev pub Environ : Type 0
Environ = Dict Text Text

abbrev pub env_prefix : Text
env_prefix = codes "TFTPOS_SECRET_"

unfoldable pub env_key : Text → Text
unfolding upper
env_key key = env_prefix ++ upper key

unfoldable pub get : Environ → Text → Option Text
unfolding env_key
get environ key = Dict.get (env_key key) environ

unfoldable pub set : Environ → Text → Text → Environ
unfolding env_key
set environ key value = Dict.put (env_key key) value environ

unfoldable pub delete : Environ → Text → Environ
unfolding env_key
delete environ key = Dict.remove (env_key key) environ

-- The names with the prefix, without it.
unfoldable pub names : Text → Environ → List Text
unfolding starts_with drop
names prefix [] = []
names prefix ((name, value) ∷ environ) =
    let rest = names prefix environ in
    if starts_with name prefix then drop (length prefix) name ∷ rest else rest

unfoldable pub list_keys : Environ → List Text
unfolding names sort
list_keys environ = sort text_le (names env_prefix environ)

abbrev pub env_provider : SecretsProvider Environ
env_provider = record { get = get; set = set; delete = delete; list_keys = list_keys }

-- A text is the prefix with a key behind it exactly if it starts with the prefix and goes on with the
-- key.
same_after : (p n k : Text) → (n == p ++ k) ≡ (starts_with n p && (drop (length p) n == k))
unfolding text_beq starts_with drop
same_after [] [] k = refl
same_after [] (c ∷ n) k = refl
same_after (a ∷ p) [] k = refl
same_after (a ∷ p) (c ∷ n) k = ground (arith, same_after p n k)

among-names : (p k : Text) (d : Environ) → among k (names p d) ≡ Dict.has_key (p ++ k) d
unfolding names among Dict.has_key
among-names p k [] = refl
among-names p k ((n, v) ∷ d) = ground (arith, same_after p n k, among-names p k d)

-- The same key, in upper case.
same_key : (p k j : Text) → (p ++ k == p ++ j) ≡ (k == j)
unfolding text_beq
same_key [] k j = refl
same_key (a ∷ p) k j = ground (arith, nat_beq_iff a a, same_key p k j)

-- The environment is a store of secrets, whose keys are the same where they are in upper case: a key
-- that is set reads as its value, a key that is deleted reads as absent, all other keys stay, and a
-- key is listed in upper case exactly if it reads as present.
pub env_provider-IsProvider : IsProvider env_provider upper (λ environ. Unit)
unfolding get set delete list_keys env_key
env_provider-IsProvider = record {
  set-IsValid = λ d k v h. tt;
  delete-IsValid = λ d k h. tt;
  get-set = λ d k v j h.
      get-put (env_key k) (env_key j) v d
      ∙ ap (λ b. if b then some v else get d j) (same_key env_prefix (upper k) (upper j));
  get-delete = λ d k j h.
      get-remove (env_key k) (env_key j) d
      ∙ ap (λ b. if b then none else get d j) (same_key env_prefix (upper k) (upper j));
  list_keys-get = λ d k h.
      among-sort text_le (upper k) (names env_prefix d)
      ∙ among-names env_prefix (upper k) d
      ∙ has_key-get (env_key k) d;
}
