-- ===== src/Instructions/Tests.antt =====
-- Tests: an instruction that updates the key and one that signs.
use cipher_sign.Prelude.{[], ◌∷◌, none, ok, ◌≡◌, refl}
use cipher_sign.Chain.{Net, send, wait_mined, update_key, sign}
use cipher_sign.Chain.Sample.{mining, fresh}
use cipher_sign.Instructions.{Sender, send_update_key, send_sign}
use cipher_sign.Instructions.Returned.{Mined, update_then_sign-Mined}

abbrev bound : Sender mining
bound = record {
  default_fee = 7;
  new_instruction_sender = λ a. ok tt;
  pack = λ m. none;
  created = λ tx. tx ∷ [];
}

abbrev updated : Net mining
updated = record { world = 6; sent = update_key (9 ∷ []) (1 ∷ []) ∷ [] }

abbrev signed : Net mining
signed = record { world = 7; sent = sign (9 ∷ []) (2 ∷ []) ∷ update_key (9 ∷ []) (1 ∷ []) ∷ [] }

update_sample :
    send_update_key mining bound 4 (9 ∷ []) (1 ∷ []) fresh ≡ (updated, ok (5 ∷ 1 ∷ [], 5 ∷ []))
unfolding send_update_key send wait_mined
update_sample = refl

sign_sample : send_sign mining bound 4 (9 ∷ []) (2 ∷ []) updated ≡ (signed, ok (6 ∷ 1 ∷ [], 6 ∷ []))
unfolding send_sign send wait_mined
sign_sample = refl

update_then_sign-Mined_example :
    Mined mining bound 4 (update_key (9 ∷ []) (1 ∷ [])) 5 (5 ∷ 1 ∷ []) (5 ∷ [])
    × Mined mining bound 4 (sign (9 ∷ []) (2 ∷ [])) 6 (6 ∷ 1 ∷ []) (6 ∷ [])
update_then_sign-Mined_example =
    update_then_sign-Mined mining bound 4 (9 ∷ []) (1 ∷ []) (2 ∷ []) fresh updated signed
      (5 ∷ 1 ∷ []) (6 ∷ 1 ∷ []) (5 ∷ []) (6 ∷ []) update_sample sign_sample
