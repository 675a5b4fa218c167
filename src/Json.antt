-- ===== src/Json.antt =====
-- The trees that cJSON hands to the program (`struct cJSON`), and the calls of that library and of
-- the generated configuration which the program makes, as one record of parameters.
use cjet.Base.{ℕ, suc, Bool, Option}
use cjet.Base.Str.{Str}

-- A number has its `valueint`, a 32-bit pattern, and its `valuedouble`, the pattern of the double.
-- A string node that the parser makes has its `valuestring`.
mutual
  pub data Json : Type 0 where
    null : Json
    boolean : Bool → Json
    number : ℕ → ℕ → Json
    string : Str → Json
    array : Items → Json
    object : Fields → Json

  pub data Items : Type 0 where
    nil : Items
    cons : Json → Items → Items

  pub data Fields : Type 0 where
    end : Fields
    field : Str → Json → Fields → Fields

-- `cJSON_GetArraySize`, which counts the children of an array or an object.
unfoldable pub items_size : Items → ℕ
items_size nil = 0
items_size (cons x xs) = suc (items_size xs)

unfoldable pub fields_size : Fields → ℕ
fields_size end = 0
fields_size (field k v fs) = suc (fields_size fs)

-- `cJSON_AddItemToObject`, `cJSON_AddItemToArray`: the new child comes last.
unfoldable pub add_field : Fields → Str → Json → Fields
add_field end k v = field k v end
add_field (field j w fs) k v = field j w (add_field fs k v)

unfoldable pub add_item : Items → Json → Items
add_item nil x = cons x nil
add_item (cons y ys) x = cons y (add_item ys x)

-- What the program takes from elsewhere: cJSON's lookup by key and its numbers, the comparison and
-- the conversion of doubles, `printf`'s `%p`, `crypt`, and the values
-- of `generated/cjet_config.h`.
pub record Platform : Type 0 where
  -- `cJSON_GetObjectItem`; NULL is `none`
  pub get_object_item : Json → Str → Option Json
  -- `cJSON_ReplaceItemInObject`
  pub replace_item_in_object : Json → Str → Json → Json
  -- `cJSON_CreateNumber` of an `int`
  pub create_number : ℕ → Json
  -- `valuedouble < MIN_TIMEOUT_IN_S`
  pub timeout_too_small : ℕ → Bool
  -- `(uint64_t)(seconds * 1000000000.0)`
  pub convert_seconds_to_nsec : ℕ → ℕ
  -- `%p`
  pub format_pointer : ℕ → Str
  -- `crypt(passwd, salt)`
  pub crypt : Str → Str → Option Str
  -- CONFIG_ALLOW_ADD_ONLY_FROM_LOCALHOST
  pub add_only_from_localhost : Bool
  -- CONFIG_INITIAL_FETCH_TABLE_SIZE
  pub initial_fetch_table_size : ℕ
  -- CONFIG_MAX_NUMBERS_OF_MATCHERS_IN_FETCH
  pub max_numbers_of_matchers : ℕ
  -- `convert_seconds_to_nsec(CONFIG_ROUTED_MESSAGES_TIMEOUT)`
  pub routed_messages_timeout : ℕ
