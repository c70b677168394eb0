-- ===== src/Server/Service/Table.antt =====
-- service.go: what stands in the table of a service's methods.
use kama_rpc_go.Base.{
  ℕ, ◌≡◌, Bool, true, List, [], ◌∷◌, Bytes, some, Result, ok, err, bytes_eq, lookup,
}
use kama_rpc_go.Server.Service.{
  GoType, ptr, FuncType, GoMethod, MethodEntry, ServiceEntry, lookup_method,
}
use mathlib.Core.List.{Memᴰ}

module _ (implements : GoType → Bool) where
  -- func(req *Req, reply *Resp) error, with the element types req and reply.
  pub record HasTypes (t : FuncType) (req reply : ℕ) : Type 0 where
    pub result : GoType
    pub ins_are : t.ins ≡ ptr req ∷ ptr reply ∷ []
    pub outs_are : t.outs ≡ result ∷ []
    pub is_error : implements result ≡ true

  -- A method of the instance that an entry of the table stands for.
  pub record Stands (all : List GoMethod) (method : Bytes) (m : MethodEntry) : Type 0 where
    pub from : GoMethod
    pub listed : Memᴰ from all
    pub named : from.name ≡ method
    pub same_fn : from.fn ≡ m.fn
    pub typed : HasTypes from.fn_type m.req_type m.reply_type

  abbrev Sound : List GoMethod → List (Bytes × MethodEntry) → Type 0
  Sound all table = (k : Bytes) (m : MethodEntry) → lookup k table ≡ some m → Stands all k m

  abbrev Found : Bytes → List (Bytes × MethodEntry) → Type 0
  Found k table = (m : MethodEntry) × (lookup k table ≡ some m)

  -- What becomes of a service with these methods.
  abbrev pub Typed : Bytes → List GoMethod → Result ServiceEntry → Type 0
  Typed name ms (err e) =
      (g : GoMethod) (req reply : ℕ) → Memᴰ g ms → ¬ (HasTypes g.fn_type req reply)
  Typed name ms (ok s) =
      (s.name ≡ name)
      × ((k : Bytes) (m : MethodEntry) → lookup_method s k ≡ some m → Stands ms k m)
      × ((g : GoMethod) (req reply : ℕ)
          → Memᴰ g ms
          → HasTypes g.fn_type req reply
          → (m : MethodEntry) × (lookup_method s g.name ≡ some m))
