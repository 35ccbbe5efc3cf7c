-- ===== src/References.antt =====
-- as4/core/references.py: the identifiers of one exchange. Each `uuid4()` is the next text of a
-- supply.
use as_lib.Base.{ℕ, String, ◌<>◌, [], ◌∷◌}
use as_lib.Base.Dict.{Dict}

pub record As4References : Type 0 where
  pub message_id : String
  pub messaging_id : String
  pub conversation_id : String
  pub encrypted_key_bst_id : String
  pub signature_bst_id : String
  pub encrypted_key_id : String
  pub signature_id : String
  pub key_info_id : String
  pub signature_security_token_reference_id : String
  pub body_id : String
  pub attachment_id_encrypted_data_id_map : Dict String

-- `AS4References()`, with the values of its default factories.
unfoldable pub default_references : (ℕ → String) → As4References
default_references uuid = record {
  message_id = uuid 0 <> "@as4";
  messaging_id = "as4-msg-" <> uuid 1;
  conversation_id = "as4@" <> uuid 2;
  encrypted_key_bst_id = uuid 3;
  signature_bst_id = "X509-" <> uuid 4;
  encrypted_key_id = "EK-" <> uuid 5;
  signature_id = "SIG-" <> uuid 6;
  key_info_id = "KI-" <> uuid 7;
  signature_security_token_reference_id = "STR-" <> uuid 8;
  body_id = uuid 9;
  attachment_id_encrypted_data_id_map = [];
}

-- `encrypted_data_attachment_mapping`, which fills an empty map and returns its first entry.
unfoldable pub encrypted_data_attachment_mapping :
    (ℕ → String) → As4References → (String × String) × As4References
encrypted_data_attachment_mapping uuid r = elim r.attachment_id_encrypted_data_id_map [
  | [] ↦
      let entry : String × String = ("as4-att-" <> uuid 0 <> "@cid", "ED-" <> uuid 1) in
      (entry, record r { attachment_id_encrypted_data_id_map = entry ∷ [] })
  | entry ∷ _ ↦ (entry, r)
]
