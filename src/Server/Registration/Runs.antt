-- ===== src/Server/Registration/Runs.antt =====
-- Runs of registration, and its theorem at an input.
use kama_rpc_go.Base.{
  ◌≡◌, refl, ◌==◌, Bool, false, [], ◌∷◌, some, err, codes, lookup, insert, erase, bytes_eq, nat_eq,
  no_methods, invalid_registration,
}
use kama_rpc_go.Server.Service.{
  GoType, ptr, other, GoMethod, ServiceEntry, signature_types, parse_signature, add_method,
  add_methods, entry_of, new_service_entry,
}
use kama_rpc_go.Server.Registration.{
  default_server, add_service, register_entry, register_instance, register, accept, finished, stop,
  wanted, Registers, register-Registers,
}

abbrev is_error : GoType → Bool
is_error (ptr t) = false
is_error (other t) = t == 9

-- func(req *Req, reply *Resp) error, and a method of another form.
abbrev call : GoMethod
call = record {
  name = codes "Call";
  fn = 4;
  fn_type = record { ins = ptr 1 ∷ ptr 2 ∷ []; outs = other 9 ∷ [] };
}

abbrev odd : GoMethod
odd = record {
  name = codes "Odd";
  fn = 5;
  fn_type = record { ins = ptr 1 ∷ []; outs = other 9 ∷ [] };
}

abbrev entry : ServiceEntry
entry = record {
  name = codes "A";
  methods = (codes "Call", record { fn = 4; req_type = 1; reply_type = 2 }) ∷ [];
}

enters_run :
    (register is_error (codes "A") (some (call ∷ odd ∷ [])) (default_server 1)).1.services
    ≡ (codes "A", entry) ∷ []
unfolding register register_instance register_entry add_service new_service_entry entry_of
    add_methods add_method parse_signature signature_types insert lookup
enters_run = refl

no_methods_run :
    (register is_error (codes "A") (some (odd ∷ [])) (default_server 1)).0 ≡ err no_methods
unfolding register register_instance register_entry new_service_entry entry_of add_methods
    add_method parse_signature signature_types
no_methods_run = refl

nameless_run :
    (register is_error [] (some (call ∷ [])) (default_server 1)).0 ≡ err invalid_registration
unfolding register
nameless_run = refl

-- Stop closes the connections that are left.
stops_run : (stop (finished 3 (accept 4 (accept 3 (default_server 1))))).0 ≡ (false, 4 ∷ [])
unfolding stop finished accept insert erase
stops_run = refl

register-Registers_example :
    Registers
      (codes "A")
      (wanted is_error (codes "A") (some (call ∷ odd ∷ [])))
      (default_server 1)
      (register is_error (codes "A") (some (call ∷ odd ∷ [])) (default_server 1))
register-Registers_example =
    register-Registers is_error (codes "A") (some (call ∷ odd ∷ [])) (default_server 1)
