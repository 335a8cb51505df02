-- ===== src/Base/Framework/Dispatch.antt =====
-- tee/go/internal/base/types.go: which handler Lookup gives, after calls of Handle.
use cipher_sign.Prelude.{
  Bool, true, ◌&&◌, ◌||◌, List, [], ◌∷◌, ◌++◌, map, append-nil, append_assoc, some, Bytes, eq_bytes,
  eq_bytes_iff, if◌then◌else◌, Bool-cases, ◌≡◌, ◌↔◌, ◌⊎◌, inl, inr, sym, ◌∙◌, arith,
}
use cipher_sign.Base.Bytes32.{string_to_bytes32_hex}
use cipher_sign.Base.Framework.{HandlerEntry, Framework, handle, lookup}

-- One call of Handle, with its two names.
pub record Registration (H : Type 0) : Type 0 where
  pub op_type : Bytes
  pub op_command : Bytes
  pub handler : H

module _ {H : Type 0} where
  -- What the calls of Handle, in this order, make of a framework.
  abbrev pub registered : List (Registration H) → Framework H → Framework H
  registered [] f = f
  registered (r ∷ rs) f = registered rs (handle r.op_type r.op_command r.handler f)

  abbrev entry_of : Registration H → HandlerEntry H
  entry_of r = record {
    op_type = string_to_bytes32_hex r.op_type;
    op_command = string_to_bytes32_hex r.op_command;
    handler = r.handler;
  }

  registered-append :
      (rs : List (Registration H)) (f : Framework H) → registered rs f ≡ f ++ map entry_of rs
  unfolding handle
  registered-append [] f = sym (append-nil f)
  registered-append (r ∷ rs) f =
      registered-append rs (f ++ entry_of r ∷ [])
      ∙ append_assoc f (entry_of r ∷ []) (map entry_of rs)

module _ {H : Type 0} (op_type op_command : Bytes) where
  -- The call registers a handler for the type, and for the command or, with the empty name, for any.
  abbrev pub Serves : Registration H → Type 0
  Serves r =
      (string_to_bytes32_hex r.op_type ≡ op_type)
      × ((string_to_bytes32_hex r.op_command ≡ string_to_bytes32_hex [])
          ⊎ (string_to_bytes32_hex r.op_command ≡ op_command))

  -- `h` is registered by the first of the calls that serves the request.
  pub data FirstServing (h : H) : List (Registration H) → Type 0 where
    here :
        (r : Registration H) (rest : List (Registration H))
        → Serves r
        → r.handler ≡ h
        → FirstServing h (r ∷ rest)
    later :
        (r : Registration H) (rest : List (Registration H))
        → ¬ Serves r
        → FirstServing h rest
        → FirstServing h (r ∷ rest)

  serves? : HandlerEntry H → Bool
  serves? e =
      eq_bytes e.op_type op_type
      && (eq_bytes e.op_command (string_to_bytes32_hex []) || eq_bytes e.op_command op_command)

  serves?_iff : (r : Registration H) → (serves? (entry_of r) ≡ true) ↔ Serves r
  unfolding serves?
  serves?_iff r =
      let t = string_to_bytes32_hex r.op_type in
      let c = string_to_bytes32_hex r.op_command in
      let any = string_to_bytes32_hex [] in
      (
        λ h. ground (arith, eq_bytes_iff t op_type, eq_bytes_iff c any, eq_bytes_iff c op_command),
        λ h. ground (arith, eq_bytes_iff t op_type, eq_bytes_iff c any, eq_bytes_iff c op_command),
      )

  lookup_step :
      (e : HandlerEntry H) (rest : Framework H)
      → lookup (e ∷ rest) op_type op_command
        ≡ (if serves? e then some e.handler else lookup rest op_type op_command)
  unfolding lookup serves?
  lookup_step e rest = ground arith

  lookup→FirstServing :
      (rs : List (Registration H)) (h : H)
      → lookup (map entry_of rs) op_type op_command ≡ some h
      → FirstServing h rs
  lookup→FirstServing [] h p = absurd (unfold lookup in cc)
  lookup→FirstServing (r ∷ rest) h p = elim (Bool-cases (serves? (entry_of r))) [
    | inl s ↦
        here r rest ((serves?_iff r).0 s)
          (ground (arith, lookup_step (entry_of r) (map entry_of rest)))
    | inr n ↦
        later r rest (λ s. ground (arith, serves?_iff r))
          (lookup→FirstServing rest h
            (ground (arith, lookup_step (entry_of r) (map entry_of rest))))
  ]

  FirstServing→lookup :
      (h : H) (rs : List (Registration H))
      → FirstServing h rs
      → lookup (map entry_of rs) op_type op_command ≡ some h
  FirstServing→lookup h rs (here r rest s p) =
      rw (lookup_step (entry_of r) (map entry_of rest), (serves?_iff r).1 s, p)
  FirstServing→lookup h rs (later r rest n d) = elim (Bool-cases (serves? (entry_of r))) [
    | inl s ↦ absurd (n ((serves?_iff r).0 s))
    | inr s ↦ rw (lookup_step (entry_of r) (map entry_of rest), s) (FirstServing→lookup h rest d)
  ]

  -- After calls of Handle on the empty framework, Lookup gives a handler exactly when the first of
  -- the calls, in their order, that registers one for the request's type and for its command, or with
  -- the empty name for any command, registers this one.
  pub lookup-handle_iff :
      (rs : List (Registration H)) (h : H)
      → (lookup (registered rs []) op_type op_command ≡ some h) ↔ FirstServing h rs
  lookup-handle_iff rs h =
      rw (registered-append rs []) (lookup→FirstServing rs h, FirstServing→lookup h rs)
