-- ===== src/Protocol/Descriptors.antt =====
-- protocols/protocol.cc: `SendIotDescriptors` sends each descriptor of the array once, in order.
use xiaozhi_pc.Base.{
  ℕ, suc, ◌+◌, ◌≡◌, refl, ap, ◌∙◌, true, some, List, [], ◌∷◌, map, arith, length, get_elem?,
}
use xiaozhi_pc.Base.Text.{Bytes}
use xiaozhi_pc.Protocol.{
  ArrayJson, descriptor_object, descriptor_texts, descriptor_rounds, send_iot_descriptors,
}

sum_lem : (i k : ℕ) → i + 1 + k ≡ i + suc k
sum_lem i k = omega arith

module _ (j : ArrayJson) (session_id : Bytes) (root : j.Value) where
  texts_some :
      (v : j.Value) (message : Bytes)
      → j.print_unformatted (descriptor_object j session_id v) ≡ some message
      → descriptor_texts j session_id (some v) ≡ message ∷ []
  texts_some v message h = rw (h, descriptor_texts)

  rounds_lem :
      (items : List j.Value) (i : ℕ) (print : j.Value → Bytes)
      → ((k : ℕ) → j.array_item root (i + k) ≡ get_elem? items k)
      → ((v : j.Value) → j.print_unformatted (descriptor_object j session_id v) ≡ some (print v))
      → descriptor_rounds j session_id root (length items) i ≡ map print items
  unfolding descriptor_rounds
  rounds_lem [] i print at printed = refl
  rounds_lem (v ∷ items) i print at printed =
      let here : j.array_item root i ≡ some v = ap (j.array_item root) (omega arith) ∙ at 0 in
      let rest =
        rounds_lem items (i + 1) print
          (λ (k : ℕ). ap (j.array_item root) (sum_lem i k) ∙ at (suc k)) printed in
      rw (here, texts_some v (print v) (printed v), rest) refl

-- When the text is an array, cJSON gives its items by their indices, and each object can be
-- printed, one text is sent for each descriptor, in the order of the array.
send_iot_descriptors_all :
    (j : ArrayJson) (session_id descriptors : Bytes) (root : j.Value) (items : List j.Value)
    (print : j.Value → Bytes)
    → j.parse descriptors ≡ some root
    → j.is_array root ≡ true
    → j.array_size root ≡ length items
    → ((k : ℕ) → j.array_item root k ≡ get_elem? items k)
    → ((v : j.Value) → j.print_unformatted (descriptor_object j session_id v) ≡ some (print v))
    → send_iot_descriptors j session_id descriptors ≡ map print items
unfolding send_iot_descriptors
send_iot_descriptors_all j session_id descriptors root items print parsed array size at printed =
    rw (parsed, send_iot_descriptors, array, size)
      (rounds_lem j session_id root items 0 print
        (λ (k : ℕ). ap (j.array_item root) (omega arith) ∙ at k) printed)
