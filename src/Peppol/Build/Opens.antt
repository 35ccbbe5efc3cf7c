-- ===== src/Peppol/Build/Opens.antt =====
-- The receiver's key opens what `build_message` of as4/profiles/peppol/message.py has sealed:
-- `get_decrypted_data` and the last loop of `process` of as4/core/message.py on a built message.
use Prim.Native.String.append
use as_lib.Base.{
  ◌≡◌, refl, ap, String, ◌<>◌, true, some, [], ◌∷◌, length, string_eq, option_eq, map,
}
use as_lib.Base.Dict
use as_lib.Base.Dict.{Dict}
use as_lib.Base.Text.{nonempty, remove_prefix}
use as_lib.Base.Prefix.{starts_with-append, remove_prefix-append}
use as_lib.Platform.{Bytes, Crypto, DateTime}
use as_lib.Outcome.{ok}
use as_lib.Environment.{Environment}
use as_lib.Parties.{As4InternalParty, As4ParseContext, As4ExternalParty, As4PrivateKey}
use as_lib.References.{As4References}
use as_lib.Models.Security.{Security}
use as_lib.Models.Xenc.{EncryptedType}
use as_lib.Serialise.Reading.{read_encrypted_type, read_envelope}
use as_lib.Documents.{get_encrypted_data}
use as_lib.Base.{take-append, drop-append, ==_refl}
use as_lib.Message.Decryption.{
  aes128_gcm, rsa_oaep, decrypt_attachment, decrypt_reference, decrypt_references, session_key_of,
  decrypt_with, get_decrypted_data, drop_first, cipher_text, cipher_uri,
}
use as_lib.Peppol.Build.{BuilderArgs, Supplies, encrypt_payload, decrypt_payload}
use as_lib.Peppol.Build.Security.{data_reference, encrypted_part, get_encrypted_key}
use as_lib.Peppol.Build.Security
use as_lib.Models.Signature.{SignedInfo}
use as_lib.Peppol.Build.Envelope.{envelope_of}
use as_lib.Peppol.Build.Parts.{entry_of, filled}

-- What the third parties document, for the session key and the nonce of the message: the nonce has
-- twelve bytes, AES-GCM decrypts under the same key and nonce, the private key of the certificate
-- gives back the session key, and base64 what it encoded.
pub record Opening (c : Crypto) (s : Supplies) (remote_party : As4ExternalParty)
    (key : As4PrivateKey) : Type 0 where
  pub nonce_length : length s.urandom ≡ 12
  pub aes_gcm :
      (p : Bytes)
      → c.aes_gcm_decrypt s.generate_key s.urandom (s.aes_gcm_encrypt s.generate_key s.urandom p)
        ≡ some p
  pub rsa_oaep :
      key.decrypt (s.rsa_oaep_encrypt remote_party.credentials.certificate s.generate_key)
      ≡ some s.generate_key
  pub base64 : (b : Bytes) → c.b64decode_strict (c.b64encode b) ≡ some b
  pub sealed_text :
      nonempty
        (c.b64encode (s.rsa_oaep_encrypt remote_party.credentials.certificate s.generate_key))
      ≡ true

-- What decryption takes from the part of an attachment.
pub record Sealed (entry : String × String) (part : EncryptedType) : Type 0 where
  pub id : part.encrypted_type_id ≡ some entry.1
  pub leads : cipher_uri part ≡ some ("cid:" <> entry.0)
  pub method : part.encryption_method.algorithm ≡ aes128_gcm

encrypted_part-Sealed :
    (references : As4References) (entry : String × String)
    → Sealed entry (encrypted_part references entry)
unfolding encrypted_part cipher_uri
encrypted_part-Sealed references entry = record { id = refl; leads = refl; method = refl }

-- As it is read, too.
encrypted_part-read :
    (references : As4References) (entry : String × String)
    → Sealed entry (read_encrypted_type (encrypted_part references entry))
unfolding encrypted_part cipher_uri
encrypted_part-read references entry = record { id = refl; leads = refl; method = refl }

-- The references name one attachment.
abbrev pub OneAttachment : Supplies → As4References → Type 0
OneAttachment s references =
    (filled s references).attachment_id_encrypted_data_id_map ≡ entry_of s references ∷ []

pub nonempty-id : (x : String) → nonempty ("#" <> x) ≡ true
unfolding nonempty
nonempty-id x = rw (append.cons "#" "" x) refl

pub nonempty-cid : (x : String) → nonempty ("cid:" <> x) ≡ true
unfolding nonempty
nonempty-cid x = rw (append.cons "c" "id:" x) refl

drop_first-id : (x : String) → drop_first ("#" <> x) ≡ x
unfolding drop_first
drop_first-id x = rw (append.cons "#" "" x) (append.nil x)

-- The one entry of a dict is found under the id that its `cid:` URI names.
pub get-attached :
    (id : String) (content : Bytes)
    → Dict.get ((id, content) ∷ []) (remove_prefix ("cid:" <> id) "cid:") ≡ some content
unfolding Dict.get
get-attached id content = rw (remove_prefix-append "cid:" id, Dict.get, ==_refl id) refl

module _ (c : Crypto) (s : Supplies) (remote_party : As4ExternalParty) (key : As4PrivateKey)
    (o : Opening c s remote_party key) where
  -- What `encrypt_payload` seals, `decrypt_payload` opens under the session key that it returned.
  pub decrypt_payload-encrypt_payload :
      (p : Bytes) → decrypt_payload c (encrypt_payload s p).0 (encrypt_payload s p).1 ≡ some p
  unfolding decrypt_payload encrypt_payload
  decrypt_payload-encrypt_payload p =
      let sealed = s.aes_gcm_encrypt s.generate_key s.urandom p in
      rw
        (
          decrypt_payload,
          take-append 12 s.urandom sealed o.nonce_length,
          drop-append 12 s.urandom sealed o.nonce_length,
        )
        (o.aes_gcm p)

  found_part :
      (security : Security) (entry : String × String) (part : EncryptedType)
      → Sealed entry part
      → security.encrypted_data ≡ some (part ∷ [])
      → get_encrypted_data security (drop_first ("#" <> entry.1)) ≡ some part
  unfolding get_encrypted_data
  found_part security entry part w e =
      rw (get_encrypted_data, e, drop_first-id entry.1, w.id, ==_refl (some entry.1)) refl

  decrypt_attachment-sealed :
      (p : Bytes) → decrypt_attachment c s.generate_key aes128_gcm (encrypt_payload s p).1 ≡ ok p
  unfolding decrypt_attachment decrypt_payload encrypt_payload
  decrypt_attachment-sealed p =
      rw (decrypt_attachment, ==_refl aes128_gcm, decrypt_payload-encrypt_payload p) refl

  -- One data reference of a built message, under the session key.
  decrypt_reference-sealed :
      (security : Security) (entry : String × String) (part : EncryptedType) (p : Bytes)
      → Sealed entry part
      → security.encrypted_data ≡ some (part ∷ [])
      → decrypt_reference c security
          ((entry.0, (encrypt_payload s p).1) ∷ [])
          s.generate_key
          (data_reference entry)
        ≡ ok (entry.0, p)
  unfolding decrypt_reference
  decrypt_reference-sealed security entry part p w e =
      rw
        (
          decrypt_reference,
          nonempty-id entry.1,
          found_part security entry part w e,
          w.leads,
          nonempty-cid entry.0,
          starts_with-append "cid:" entry.0,
          get-attached entry.0 (encrypt_payload s p).1,
          remove_prefix-append "cid:" entry.0,
          w.method,
          decrypt_attachment-sealed p,
        )
        refl

  -- The session key comes back from the encrypted key of a built message.
  session_key_of-sealed :
      session_key_of c key
        (c.b64encode (s.rsa_oaep_encrypt remote_party.credentials.certificate s.generate_key))
      ≡ ok s.generate_key
  unfolding session_key_of
  session_key_of-sealed =
      let sealed = s.rsa_oaep_encrypt remote_party.credentials.certificate s.generate_key in
      rw (session_key_of, o.base64 sealed, o.rsa_oaep) refl

module _ (env : Environment) (s : Supplies) (local_party : As4InternalParty)
    (remote_party : As4ExternalParty) (ctx : As4ParseContext)
    (o : Opening env.crypto s remote_party ctx.local_party.credentials.private_key) where
  decrypt_references-sealed :
      (security : Security) (references : As4References) (entry : String × String)
      (part : EncryptedType) (p : Bytes)
      → references.attachment_id_encrypted_data_id_map ≡ entry ∷ []
      → Sealed entry part
      → security.encrypted_data ≡ some (part ∷ [])
      → decrypt_references env.crypto security
          ((entry.0, (encrypt_payload s p).1) ∷ [])
          s.generate_key
          (map data_reference references.attachment_id_encrypted_data_id_map)
          []
        ≡ ok ((entry.0, p) ∷ [])
  unfolding decrypt_references Dict.put
  decrypt_references-sealed security references entry part p one w e =
      rw
        (
          one,
          decrypt_references,
          decrypt_reference-sealed env.crypto s remote_party ctx.local_party.credentials.private_key
              o security entry part p w e,
        )
        refl

  decrypt_with-sealed :
      (security : Security) (references : As4References) (entry : String × String)
      (part : EncryptedType) (p : Bytes)
      → references.attachment_id_encrypted_data_id_map ≡ entry ∷ []
      → Sealed entry part
      → security.encrypted_data ≡ some (part ∷ [])
      → decrypt_with env.crypto ctx security ((entry.0, (encrypt_payload s p).1) ∷ []) (
          get_encrypted_key env references
            (s.rsa_oaep_encrypt remote_party.credentials.certificate s.generate_key))
        ≡ ok ((entry.0, p) ∷ [])
  unfolding decrypt_with cipher_text get_encrypted_key
  decrypt_with-sealed security references entry part p one w e =
      rw
        (
          decrypt_with,
          o.sealed_text,
          ==_refl rsa_oaep,
          session_key_of-sealed env.crypto s remote_party ctx.local_party.credentials.private_key o,
        )
        (decrypt_references-sealed security references entry part p one w e)

  -- From a built envelope and its one attachment the receiver's key gets back what was sealed.
  pub get_decrypted_data-envelope_of :
      (a : BuilderArgs) (references : As4References) (entry : String × String) (i : SignedInfo)
      (p : Bytes)
      → references.attachment_id_encrypted_data_id_map ≡ entry ∷ []
      → get_decrypted_data env.crypto ctx
          (envelope_of env s local_party remote_party a references
            (s.rsa_oaep_encrypt remote_party.credentials.certificate s.generate_key)
            i).header.security
          ((entry.0, (encrypt_payload s p).1) ∷ [])
        ≡ ok ((entry.0, p) ∷ [])
  unfolding get_decrypted_data envelope_of Security.get_encrypted_data
  get_decrypted_data-envelope_of a references entry i p one =
      let security : Security =
        (envelope_of env s local_party remote_party a references
          (s.rsa_oaep_encrypt remote_party.credentials.certificate s.generate_key)
          i).header.security in
      decrypt_with-sealed security references entry (encrypted_part references entry) p one
        (encrypted_part-Sealed references entry)
        (ap (λ d. some (map (encrypted_part references) d)) one)

  -- And from the envelope as it is read.
  pub get_decrypted_data-read_envelope :
      (a : BuilderArgs) (references : As4References) (entry : String × String) (i : SignedInfo)
      (p : Bytes) (read_time : DateTime → DateTime)
      → references.attachment_id_encrypted_data_id_map ≡ entry ∷ []
      → get_decrypted_data env.crypto ctx
          (read_envelope read_time (
            envelope_of env s local_party remote_party a references
              (s.rsa_oaep_encrypt remote_party.credentials.certificate s.generate_key)
              i)).header.security
          ((entry.0, (encrypt_payload s p).1) ∷ [])
        ≡ ok ((entry.0, p) ∷ [])
  unfolding get_decrypted_data envelope_of Security.get_encrypted_data decrypt_with
      get_encrypted_key
  get_decrypted_data-read_envelope a references entry i p read_time one =
      let security : Security =
        (read_envelope read_time (
          envelope_of env s local_party remote_party a references
            (s.rsa_oaep_encrypt remote_party.credentials.certificate s.generate_key)
            i)).header.security in
      decrypt_with-sealed security references entry
        (read_encrypted_type (encrypted_part references entry)) p one
        (encrypted_part-read references entry)
        (ap (λ d. some (map read_encrypted_type (map (encrypted_part references) d))) one)
