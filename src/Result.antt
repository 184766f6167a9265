-- ===== src/Result.antt =====
-- The exceptions that the program raises or lets through, by their class; the messages are not
-- modelled, but for an exception of outside code, which carries its text.
use tftp_os.Prelude.{◌≡◌, refl, Bool, true, false}
use tftp_os.Prelude.Text.{Text}

pub data Error : Type 0 where
  value_error key_error type_error attribute_error : Error
  file_not_found is_a_directory os_error power_error : Error
  outside : Text → Error

pub data Result {ℓ} (A : Type ℓ) : Type ℓ where
  ok : A → Result A
  raise : Error → Result A

-- if not test: raise e
abbrev pub guard : Bool → Error → Result (Unit {0})
guard test e = elim test [ true ↦ ok tt | false ↦ raise e ]

infixl 5 ◌>>=◌ ◌>>◌
-- The first part raises, or its value goes to the second.
abbrev pub ◌>>=◌ {ℓ κ} : {A : Type ℓ} {B : Type κ} → Result A → (A → Result B) → Result B
raise e >>= next = raise e
ok a >>= next = next a

abbrev pub ◌>>◌ {ℓ κ} : {A : Type ℓ} {B : Type κ} → Result A → Result B → Result B
first >> second = first >>= λ a. second

pub ok-injective {ℓ} : {A : Type ℓ} {a b : A} → ok a ≡ ok b → a ≡ b
ok-injective h = cc h

pub raise-injective {ℓ} :
    {A : Type ℓ} {x y : Error} → ◌≡◌ {A = Result A} (raise x) (raise y) → x ≡ y
raise-injective h = cc h

pub >>=-ok {ℓ} : {A : Type ℓ} (first : Result A) → (first >>= λ a. ok a) ≡ first
>>=-ok (raise e) = refl
>>=-ok (ok a) = refl

pub >>=_assoc {ℓ κ μ} :
    {A : Type ℓ} {B : Type κ} {C : Type μ} (first : Result A) (f : A → Result B) (g : B → Result C)
    → ((first >>= f) >>= g) ≡ (first >>= λ a. f a >>= g)
>>=_assoc (raise e) f g = refl
>>=_assoc (ok a) f g = refl

-- A successful bind has a successful first part.
pub >>=-eq-ok {ℓ κ} :
    {A : Type ℓ} {B : Type κ} (first : Result A) (next : A → Result B) {result : B}
    → (first >>= next) ≡ ok result
    → (a : A) × (first ≡ ok a) × (next a ≡ ok result)
>>=-eq-ok (raise e) next h = cc
>>=-eq-ok (ok a) next h = (a, refl, h)

pub guard-ok : (test : Bool) (e : Error) {u : Unit {0}} → guard test e ≡ ok u → test ≡ true
guard-ok true e h = refl
guard-ok false e h = cc
