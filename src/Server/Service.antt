-- ===== src/Server/Service.antt =====
-- internal/server/service.go. reflect is what the code uses of it: a service's exported methods are
-- a list of names with their types, and a type is a pointer to an element type or another one,
-- each known by a number. A method's function is a number too. `implements` tells whether a
-- type implements `error`.
pub mod Table
use kama_rpc_go.Base.{
  ℕ, if◌then◌else◌, Bool, List, [], ◌∷◌, Bytes, Option, none, some, Result, ok, err, no_methods,
  bytes_eq, lookup, insert,
}

pub data GoType : Type 0 where
  ptr other : ℕ → GoType

-- reflect.Type of a function: its parameters and its results.
pub record FuncType : Type 0 where
  pub ins : List GoType
  pub outs : List GoType

-- A method of the instance, as reflect lists it.
pub record GoMethod : Type 0 where
  pub name : Bytes
  pub fn : ℕ
  pub fn_type : FuncType

pub record MethodEntry : Type 0 where
  pub fn : ℕ
  pub req_type : ℕ
  pub reply_type : ℕ

pub record ServiceEntry : Type 0 where
  pub name : Bytes
  pub methods : List (Bytes × MethodEntry)

-- The element types of the two parameters, if the signature is func(req *Req, reply *Resp) error.
unfoldable pub signature_types : (GoType → Bool) → List GoType → List GoType → Option (ℕ × ℕ)
signature_types implements (ptr req ∷ ptr reply ∷ []) (out ∷ []) =
    if implements out then some (req, reply) else none
signature_types implements ins outs = none

unfoldable pub parse_signature : (GoType → Bool) → FuncType → Option (ℕ × ℕ)
unfolding signature_types
parse_signature implements t = signature_types implements t.ins t.outs

-- One round: a method with another signature is skipped.
unfoldable pub add_method :
    GoMethod → Option (ℕ × ℕ) → List (Bytes × MethodEntry) → List (Bytes × MethodEntry)
add_method m none methods = methods
add_method m (some (req, reply)) methods =
    insert m.name (record { fn = m.fn; req_type = req; reply_type = reply }) methods

-- The loop over the methods, from the table so far on.
unfoldable pub add_methods :
    (GoType → Bool) → List GoMethod → List (Bytes × MethodEntry) → List (Bytes × MethodEntry)
unfolding add_method
add_methods implements [] methods = methods
add_methods implements (m ∷ ms) methods =
    add_methods implements ms (add_method m (parse_signature implements m.fn_type) methods)

unfoldable pub entry_of : Bytes → List (Bytes × MethodEntry) → Result ServiceEntry
entry_of name [] = err no_methods
entry_of name (m ∷ methods) = ok (record { name = name; methods = m ∷ methods })

-- `value.IsValid()` is tested by Register already, which refuses a nil service.
unfoldable pub new_service_entry : (GoType → Bool) → Bytes → List GoMethod → Result ServiceEntry
unfolding entry_of
new_service_entry implements name ms = entry_of name (add_methods implements ms [])

unfoldable pub lookup_method : ServiceEntry → Bytes → Option MethodEntry
lookup_method e method = lookup method e.methods
