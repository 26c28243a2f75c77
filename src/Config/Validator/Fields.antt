-- ===== src/Config/Validator/Fields.antt =====
-- `ValidateField` of internal/config/validator.go and the checks that it chooses from. An
-- `interface{}` is a value of one of the dynamic types that the checks tell apart; a `float64` and
-- its conversion to integers are parameters.
use wemixvisor.Base.{
  str_dec, ◌≢◌, ℕ, ◌-◌, ◌≡◌, ◌↔◌, refl, Option, none, some, Bool, false, not, ◌&&◌, ◌||◌, String,
  str_eq, leb, ◌==◌, arith, if◌then◌else◌, inl, inr, ◌⊎◌,
}
use Prim.Native.Char.{code}
use Prim.Native.Nat.{◌%◌, ◌^◌}
use wemixvisor.Base.Int.{ℤ, pos, negsuc, ltb_ℤ, ◌≤ℤ◌}
use wemixvisor.Config.Validator.{Environment, has_invalid_char, expand, is_missing}

pub data Value (F : Type 0) : Type 0 where
  string : String → Value F
  int : ℤ → Value F
  int64 : ℤ → Value F
  uint64 : ℕ → Value F
  float64 : F → Value F
  other : Value F

pub data FieldError : Type 0 where
  not_a_string empty parent_missing invalid_characters : FieldError
  not_a_number out_of_range zero_id not_numeric negative too_many : FieldError

-- `uint64(id)` of an `int`: the two's complement
abbrev pub to_uint64 : ℤ → ℕ
to_uint64 (pos n) = n % 2 ^ 64
to_uint64 (negsuc n) = 2 ^ 64 - 1 - n % 2 ^ 64

unfoldable pub is_numeric : String → Bool
is_numeric String.[] = false
is_numeric (String.◌∷◌ c String.[]) = leb b'0' (code c) && leb (code c) b'9'
is_numeric (String.◌∷◌ c (String.◌∷◌ d s)) =
    leb b'0' (code c) && leb (code c) b'9' && is_numeric (String.◌∷◌ d s)

unfoldable pub port_in_range : ℤ → Option FieldError
port_in_range n = if ltb_ℤ n (pos 1) || ltb_ℤ (pos 65535) n then some out_of_range else none

unfoldable pub peers_in_range : ℤ → Option FieldError
peers_in_range n =
    if ltb_ℤ n (pos 0) then some negative else if ltb_ℤ (pos 200) n then some too_many else none

unfoldable pub nonzero_id : ℕ → Option FieldError
nonzero_id n = if n == 0 then some zero_id else none

module _ {F : Type 0} (e : Environment) (float_to_int : F → ℤ) (float_to_uint : F → ℕ) where
  unfoldable pub validate_path : Value F → Option FieldError
  validate_path (string s) =
      if str_eq s ""
      then some empty
      else if is_missing (e.stat (e.dir (expand e s)))
      then some parent_missing
      else none
  validate_path _ = some not_a_string

  unfoldable pub validate_binary_name : Value F → Option FieldError
  validate_binary_name (string s) =
      if str_eq s ""
      then some empty
      else if has_invalid_char s
      then some invalid_characters
      else none
  validate_binary_name _ = some not_a_string

  unfoldable pub validate_port : Value F → Option FieldError
  validate_port (int n) = port_in_range n
  validate_port (int64 n) = port_in_range n
  validate_port (float64 f) = port_in_range (float_to_int f)
  validate_port _ = some not_a_number

  unfoldable pub validate_network_id : Value F → Option FieldError
  validate_network_id (uint64 n) = nonzero_id n
  validate_network_id (int n) = nonzero_id (to_uint64 n)
  validate_network_id (float64 f) = nonzero_id (float_to_uint f)
  validate_network_id _ = some not_a_number

  unfoldable pub validate_chain_id : Value F → Option FieldError
  validate_chain_id (string s) =
      if str_eq s "" then some empty else if not (is_numeric s) then some not_numeric else none
  validate_chain_id _ = some not_a_string

  unfoldable pub validate_max_peers : Value F → Option FieldError
  validate_max_peers (int n) = peers_in_range n
  validate_max_peers (float64 f) = peers_in_range (float_to_int f)
  validate_max_peers _ = some not_a_number

  unfoldable pub validate_field : String → Value F → Option FieldError
  validate_field field value =
      if str_eq field "home"
      then validate_path value
      else if str_eq field "name"
      then validate_binary_name value
      else if str_eq field "rpc_port" || str_eq field "ws_port" || str_eq field "p2p_port"
      then validate_port value
      else if str_eq field "network_id"
      then validate_network_id value
      else if str_eq field "chain_id"
      then validate_chain_id value
      else if str_eq field "max_peers"
      then validate_max_peers value
      else none

-- what a port must be, whatever the type it comes in
abbrev pub IsPort : ℤ → Type 0
IsPort n = (pos 1 ≤ℤ n) × (n ≤ℤ pos 65535)

port_in_range_exact : (n : ℤ) → (port_in_range n ≡ none) ↔ IsPort n
unfolding port_in_range
port_in_range_exact n = (λ h. ground (arith, h), λ h. ground (arith, h))

-- an `int64`
abbrev pub IsInt64 : ℤ → Type 0
IsInt64 n = (negsuc (2 ^ 63 - 1) ≤ℤ n) × (n ≤ℤ pos (2 ^ 63 - 1))

nonzero_id-to_uint64 : (n : ℤ) → IsInt64 n → (nonzero_id (to_uint64 n) ≡ none) ↔ (n ≢ pos 0)
unfolding nonzero_id
nonzero_id-to_uint64 (pos n) h = (λ k z. ground (arith, h, k, z), λ k. ground (arith, h, k))
nonzero_id-to_uint64 (negsuc n) h = (λ k z. ground (arith, z), λ k. ground (arith, h))

module _ {F : Type 0} (e : Environment) (float_to_int : F → ℤ) (float_to_uint : F → ℕ) where
  abbrev pub AcceptsPort : Value F → Type 0
  AcceptsPort (int n) = IsPort n
  AcceptsPort (int64 n) = IsPort n
  AcceptsPort (float64 f) = IsPort (float_to_int f)
  AcceptsPort _ = ⊥

  validate_port_exact :
      (v : Value F) → (validate_port e float_to_int float_to_uint v ≡ none) ↔ AcceptsPort v
  unfolding validate_port
  validate_port_exact (int n) = port_in_range_exact n
  validate_port_exact (int64 n) = port_in_range_exact n
  validate_port_exact (float64 f) = port_in_range_exact (float_to_int f)
  validate_port_exact (string s) = (λ h. cc h, λ h. absurd h)
  validate_port_exact (uint64 n) = (λ h. cc h, λ h. absurd h)
  validate_port_exact other = (λ h. cc h, λ h. absurd h)

  abbrev pub IsPortField : String → Type 0
  IsPortField field = (field ≡ "rpc_port") ⊎ ((field ≡ "ws_port") ⊎ (field ≡ "p2p_port"))

  validate_field-port :
      (field : String) (v : Value F)
      → IsPortField field
      → validate_field e float_to_int float_to_uint field v
        ≡ validate_port e float_to_int float_to_uint v
  unfolding validate_field str_dec
  validate_field-port field v (inl h) = rw h refl
  validate_field-port field v (inr (inl h)) = rw h refl
  validate_field-port field v (inr (inr h)) = rw h refl

  -- A value is accepted for one of the port fields just when it is an `int`, an `int64` or a
  -- `float64` that lies, as an integer, between 1 and 65535.
  pub validate_field_ports :
      (field : String) (v : Value F)
      → IsPortField field
      → (validate_field e float_to_int float_to_uint field v ≡ none) ↔ AcceptsPort v
  validate_field_ports field v h = rw (validate_field-port field v h) (validate_port_exact v)

  validate_field-network_id :
      (n : ℤ)
      → validate_field e float_to_int float_to_uint "network_id" (int n) ≡ nonzero_id (to_uint64 n)
  unfolding validate_field validate_network_id str_dec
  validate_field-network_id n = refl

  -- An `int` is accepted as a network id just when it is not 0: the conversion to `uint64` makes a
  -- large number of a negative one.
  pub network_id_exact :
      (n : ℤ)
      → IsInt64 n
      → (validate_field e float_to_int float_to_uint "network_id" (int n) ≡ none) ↔ (n ≢ pos 0)
  network_id_exact n h = rw (validate_field-network_id n) (nonzero_id-to_uint64 n h)
