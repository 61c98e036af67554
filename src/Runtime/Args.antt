-- ===== src/Runtime/Args.antt =====
-- The validation of a call's arguments in tool_governance_demo.py: the fields of `GetOrderArgs`,
-- `CreateRefundArgs`, `RunShellArgs` and `TransferArgs`, all of them strict and closed. The amounts
-- are whole numbers: calls with other amounts, which the code accepts too, are not modelled.
use my_ai_agent_fullstack_tr.Base.{
  Bool, List, Option, Option-cases, [], arith, contains, false, if◌then◌else◌, inl, inr, leb,
  length, list_eq, nat_eq, none, option_eq, pair_eq, some, true, ℕ, ◌&&◌, ◌==◌, ◌∷◌, ◌≡◌,
}
use my_ai_agent_fullstack_tr.Domain.Models.{Text}
use my_ai_agent_fullstack_tr.Runtime.{ArgsModel, ParametersModel, Value}
use my_ai_agent_fullstack_tr.Storage.Table.{Table, lookup}

-- The names of the fields.
abbrev order_id_field : Text
order_id_field = 111 ∷ 114 ∷ 100 ∷ 101 ∷ 114 ∷ 95 ∷ 105 ∷ 100 ∷ []

abbrev pub amount_field : Text
amount_field = 97 ∷ 109 ∷ 111 ∷ 117 ∷ 110 ∷ 116 ∷ []

abbrev reason_field : Text
reason_field = 114 ∷ 101 ∷ 97 ∷ 115 ∷ 111 ∷ 110 ∷ []

abbrev command_field : Text
command_field = 99 ∷ 111 ∷ 109 ∷ 109 ∷ 97 ∷ 110 ∷ 100 ∷ []

abbrev pub from_account_field : Text
from_account_field = 102 ∷ 114 ∷ 111 ∷ 109 ∷ 95 ∷ 97 ∷ 99 ∷ 99 ∷ 111 ∷ 117 ∷ 110 ∷ 116 ∷ []

abbrev pub to_account_field : Text
to_account_field = 116 ∷ 111 ∷ 95 ∷ 97 ∷ 99 ∷ 99 ∷ 111 ∷ 117 ∷ 110 ∷ 116 ∷ []

abbrev pub is_digit : ℕ → Bool
is_digit c = leb 48 c && leb c 57

abbrev is_capital : ℕ → Bool
is_capital c = leb 65 c && leb c 90

unfoldable pub all_digits : Text → Bool
all_digits [] = true
all_digits (c ∷ t) = is_digit c && all_digits t

-- `^ord_[0-9]{4}$`
abbrev pub is_order_id : Text → Bool
unfolding all_digits
is_order_id (a ∷ b ∷ c ∷ d ∷ t) =
    a ∷ b ∷ c ∷ d ∷ [] == 111 ∷ 114 ∷ 100 ∷ 95 ∷ [] && length t == 4 && all_digits t
is_order_id _ = false

-- `^ACC-[A-Z]-[0-9]{6}$`
abbrev pub is_account_id : Text → Bool
unfolding all_digits
is_account_id (a ∷ b ∷ c ∷ d ∷ e ∷ f ∷ t) =
    a ∷ b ∷ c ∷ d ∷ [] == 65 ∷ 67 ∷ 67 ∷ 45 ∷ []
    && is_capital e
    && f == 45
    && length t == 6
    && all_digits t
is_account_id _ = false

-- `extra="forbid"`
unfoldable pub only_fields : List Text → Table Text Value → Bool
only_fields names [] = true
only_fields names ((k, v) ∷ t) = contains k names && only_fields names t

-- `model_config` and `Field` of one field that is a text or a number.
abbrev text_field : (Text → Bool) → Option Value → Option Text
text_field test (some (Value.text t)) = if test t then some t else none
text_field test _ = none

abbrev number_field : (ℕ → Bool) → Option Value → Option ℕ
number_field test (some (Value.number n)) = if test n then some n else none
number_field test _ = none

abbrev pub within : ℕ → ℕ → ℕ → Bool
within low high n = leb low n && leb n high

-- `Field(min_length=low, max_length=high)`
abbrev length_within : ℕ → ℕ → Text → Bool
length_within low high t = within low high (length t)

-- The fields of each model.
unfoldable pub field_names : ParametersModel → List Text
field_names ParametersModel.get_order_args = order_id_field ∷ []
field_names ParametersModel.create_refund_args = order_id_field ∷ amount_field ∷ reason_field ∷ []
field_names ParametersModel.run_shell_args = command_field ∷ []
field_names ParametersModel.transfer_args =
    from_account_field ∷ to_account_field ∷ amount_field ∷ []

infixl 10 ◌>>=◌
◌>>=◌ : {A B : Type 0} → Option A → (A → Option B) → Option B
none >>= f = none
some a >>= f = f a

unfoldable pub validate_fields : ParametersModel → Table Text Value → Option ArgsModel
unfolding ◌>>=◌
validate_fields ParametersModel.get_order_args t = do
  order_id ← text_field is_order_id (lookup order_id_field t)
  some (ArgsModel.get_order order_id)
validate_fields ParametersModel.create_refund_args t = do
  order_id ← text_field is_order_id (lookup order_id_field t)
  amount ← number_field (within 1 10000) (lookup amount_field t)
  why ← text_field (length_within 4 200) (lookup reason_field t)
  some (ArgsModel.create_refund order_id amount why)
validate_fields ParametersModel.run_shell_args t = do
  command ← text_field (length_within 1 200) (lookup command_field t)
  some (ArgsModel.run_shell command)
validate_fields ParametersModel.transfer_args t = do
  from_account ← text_field is_account_id (lookup from_account_field t)
  to_account ← text_field is_account_id (lookup to_account_field t)
  amount ← number_field (within 1 100000) (lookup amount_field t)
  some (ArgsModel.transfer from_account to_account amount)

-- `parameters_model.model_validate`, on arguments whose numbers are whole; `gt=0` is 1 or more then.
unfoldable pub model_validate : ParametersModel → Table Text Value → Option ArgsModel
unfolding only_fields field_names validate_fields
model_validate m t = if only_fields (field_names m) t then validate_fields m t else none

-- The arguments that a model validates are of the shape of this model.
pub create_refund_args_shape :
    (t : Table Text Value) (args : ArgsModel)
    → model_validate ParametersModel.create_refund_args t ≡ some args
    → (order_id : Text) × (amount : ℕ) × (why : Text) × (args
        ≡ ArgsModel.create_refund order_id amount why)
unfolding model_validate validate_fields ◌>>=◌
create_refund_args_shape t args h =
    elim (Option-cases (text_field is_order_id (lookup order_id_field t))) [
      | inl e ↦ absurd (ground (arith, h, e))
      | inr (order_id, e) ↦
          elim (Option-cases (number_field (within 1 10000) (lookup amount_field t))) [
            | inl f ↦ absurd (ground (arith, h, e, f))
            | inr (amount, f) ↦
                elim (Option-cases (text_field (length_within 4 200) (lookup reason_field t))) [
                  | inl g ↦ absurd (ground (arith, h, e, f, g))
                  | inr (why, g) ↦ (order_id, amount, why, ground (arith, h, e, f, g))
                ]
          ]
    ]

pub transfer_args_shape :
    (t : Table Text Value) (args : ArgsModel)
    → model_validate ParametersModel.transfer_args t ≡ some args
    → (from_account : Text) × (to_account : Text) × (amount : ℕ) × (args
        ≡ ArgsModel.transfer from_account to_account amount)
unfolding model_validate validate_fields ◌>>=◌
transfer_args_shape t args h =
    elim (Option-cases (text_field is_account_id (lookup from_account_field t))) [
      | inl e ↦ absurd (ground (arith, h, e))
      | inr (from_account, e) ↦
          elim (Option-cases (text_field is_account_id (lookup to_account_field t))) [
            | inl f ↦ absurd (ground (arith, h, e, f))
            | inr (to_account, f) ↦
                elim (Option-cases (number_field (within 1 100000) (lookup amount_field t))) [
                  | inl g ↦ absurd (ground (arith, h, e, f, g))
                  | inr (amount, g) ↦ (from_account, to_account, amount, ground (arith, h, e, f, g))
                ]
          ]
    ]
