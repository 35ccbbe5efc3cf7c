-- ===== src/Message/Decryption/Meaning.antt =====
-- What `get_decrypted_data` of as4/core/message.py hands on.
use mathlib.Core.Path.{subst}
use as_lib.Base.{
  ◌≡◌, ap, sym, ◌∙◌, String, true, false, Option, none, some, List, [], ◌∷◌, take, drop, All, ◌==◌,
  string_eq, ==→eq, arith, Bool-cases, inl, inr, if◌then◌else◌,
}
use as_lib.Base.Text.{starts_with, remove_prefix}
use as_lib.Base.Dict
use as_lib.Base.Dict.{Dict}
use as_lib.Errors
use as_lib.Errors.{error_of}
use as_lib.Platform.{Bytes, Crypto}
use as_lib.Outcome.{
  Result, ok, err, require, ensure, bind-eq-ok, ensure-eq-ok, ok-injective, require-eq-some,
  receiptable,
}
use as_lib.Models.Security.{Security}
use as_lib.Models.Xenc.{DataReference, EncryptedKey}
use as_lib.Documents.{get_encrypted_data}
use as_lib.Parties.{As4ParseContext}
use as_lib.Message.{present, or_blank}
use as_lib.Message.Decryption.{
  aes128_gcm, rsa_oaep, drop_first, cipher_uri, cipher_text, decrypt_attachment, decrypt_reference,
  decrypt_references, session_key_of, decrypt_with, get_decrypted_data,
}

module _ (c : Crypto) where
  -- The content is what AES-GCM opens of the attachment of that id under the session key.
  pub record Opened (mime_attachments : Dict Bytes) (session_key : Bytes) (id : String)
      (content : Bytes) : Type 0 where
    pub sealed : Bytes
    pub attached : Dict.get mime_attachments id ≡ some sealed
    pub opens : c.aes_gcm_decrypt session_key (take 12 sealed) (drop 12 sealed) ≡ some content

  abbrev pub AllOpened : Dict Bytes → Bytes → Dict Bytes → Type 0
  AllOpened mime_attachments session_key =
      All (λ (id, content). Opened mime_attachments session_key id content)

  put-AllOpened :
      (mime : Dict Bytes) (key : Bytes) (id : String) (content : Bytes) (d : Dict Bytes)
      → AllOpened mime key d
      → Opened mime key id content
      → AllOpened mime key (Dict.put d id content)
  unfolding Dict.put
  put-AllOpened mime key id content [] os o = (o, tt)
  put-AllOpened mime key id content ((j, w) ∷ d) (p, os) o = elim (Bool-cases (id == j)) [
    | inl y ↦ rw y (subst (λ k. Opened mime key k content) (==→eq id j y) o, os)
    | inr n ↦ rw n (p, put-AllOpened mime key id content d os o)
  ]

  decrypt_attachment-eq-ok :
      (key : Bytes) (algorithm : String) (sealed content : Bytes)
      → decrypt_attachment c key algorithm sealed ≡ ok content
      → (algorithm == aes128_gcm ≡ true)
        × (c.aes_gcm_decrypt key (take 12 sealed) (drop 12 sealed) ≡ some content)
  unfolding decrypt_attachment
  decrypt_attachment-eq-ok key algorithm sealed content h =
      elim (Bool-cases (algorithm == aes128_gcm)) [
        | inl y ↦ (y, require-eq-some _ _ (rw y at h))
        | inr n ↦ ground arith
      ]

  decrypt_reference-Opened :
      (security : Security) (mime : Dict Bytes) (key : Bytes) (r : DataReference) (id : String)
      (content : Bytes)
      → decrypt_reference c security mime key r ≡ ok (id, content)
      → Opened mime key id content
  unfolding decrypt_reference
  decrypt_reference-Opened security mime key r id content h =
      let (u1, e1, h1) = bind-eq-ok (ensure (present r.uri) _) _ h in
      let (d, e2, h2) =
        bind-eq-ok (require (get_encrypted_data security (drop_first (or_blank r.uri))) _) _ h1 in
      let (u3, e3, h3) = bind-eq-ok (ensure (present (cipher_uri d)) _) _ h2 in
      let (u4, e4, h4) =
        bind-eq-ok (ensure (starts_with (or_blank (cipher_uri d)) "cid:") _) _ h3 in
      let (sealed, e5, h5) =
        bind-eq-ok (require (Dict.get mime (remove_prefix (or_blank (cipher_uri d)) "cid:")) _) _
          h4 in
      let (plain, e6, h6) =
        bind-eq-ok (decrypt_attachment c key d.encryption_method.algorithm sealed) _ h5 in
      let same : (remove_prefix (or_blank (cipher_uri d)) "cid:", plain) ≡ (id, content) =
        ok-injective h6 in
      let (a, opens) = decrypt_attachment-eq-ok key _ sealed plain e6 in
      record {
        sealed = sealed;
        attached = ap (λ p. Dict.get mime p.0) (sym same) ∙ require-eq-some _ _ e5;
        opens = opens ∙ ap (λ p. some p.1) same;
      }

  decrypt_references-AllOpened :
      (security : Security) (mime : Dict Bytes) (key : Bytes) (rs : List DataReference)
      (d out : Dict Bytes)
      → AllOpened mime key d
      → decrypt_references c security mime key rs d ≡ ok out
      → AllOpened mime key out
  unfolding decrypt_references
  decrypt_references-AllOpened security mime key [] d out os h =
      subst (AllOpened mime key) (ok-injective h) os
  decrypt_references-AllOpened security mime key (r ∷ rs) d out os h =
      let ((id, content), e, h1) = bind-eq-ok (decrypt_reference c security mime key r) _ h in
      decrypt_references-AllOpened security mime key rs (Dict.put d id content) out
        (put-AllOpened mime key id content d os
          (decrypt_reference-Opened security mime key r id content e))
        h1

  -- What is handed on for the encrypted key of a message, if it has one.
  pub DecryptedBy : As4ParseContext → Dict Bytes → Option EncryptedKey → Dict Bytes → Type 0
  DecryptedBy ctx mime none out = (ctx.security_policy.encrypt_required ≡ false) × (out ≡ [])
  DecryptedBy ctx mime (some key) out =
      ((key.encryption_method.algorithm == rsa_oaep) ≡ true)
      × ((session_key : Bytes) × (session_key_of c ctx.local_party.credentials.private_key
              (or_blank (cipher_text key.cipher_data.cipher_value))
            ≡ ok session_key)
          × AllOpened mime session_key out)

  decrypt_with-DecryptedBy :
      (ctx : As4ParseContext) (security : Security) (mime : Dict Bytes) (key : EncryptedKey)
      (out : Dict Bytes)
      → decrypt_with c ctx security mime key ≡ ok out
      → DecryptedBy ctx mime (some key) out
  unfolding decrypt_with DecryptedBy
  decrypt_with-DecryptedBy ctx security mime key out h =
      let text : Option String = cipher_text key.cipher_data.cipher_value in
      let (u1, e1, h1) = bind-eq-ok (ensure (present text) _) _ h in
      let (u2, e2, h2) = bind-eq-ok (ensure (key.encryption_method.algorithm == rsa_oaep) _) _ h1 in
      let (k, e3, h3) =
        bind-eq-ok (session_key_of c ctx.local_party.credentials.private_key (or_blank text)) _
          h2 in
      (ensure-eq-ok _ _ _ e2, (k, e3, decrypt_references-AllOpened security mime k _ [] out tt h3))

  decrypted_of :
      (ctx : As4ParseContext) (security : Security) (mime out : Dict Bytes)
      (o : Option EncryptedKey)
      → ◌≡◌ {A = Result (Dict Bytes)}
          (elim o [
            | none ↦
                if ctx.security_policy.encrypt_required
                then err (receiptable (error_of Errors.encryption_required ""))
                else ok []
            | some key ↦ decrypt_with c ctx security mime key
          ])
          (ok out)
      → DecryptedBy ctx mime o out
  unfolding DecryptedBy
  decrypted_of ctx security mime out none h =
      elim (Bool-cases ctx.security_policy.encrypt_required) [
        | inl y ↦ ground arith
        | inr n ↦ (n, sym (ok-injective (rw n at h)))
      ]
  decrypted_of ctx security mime out (some key) h =
      decrypt_with-DecryptedBy ctx security mime key out h

  -- When `get_decrypted_data` returns, then either the message has no encrypted key, the policy
  -- does not require one, and nothing was decrypted; or its key is encrypted by RSA-OAEP, the
  -- local private key gives a session key, and every entry of the result is what AES-GCM opens
  -- under that key of the attachment of the same id, its first twelve bytes being the nonce.
  pub get_decrypted_data-DecryptedBy :
      (ctx : As4ParseContext) (security : Security) (mime out : Dict Bytes)
      → get_decrypted_data c ctx security mime ≡ ok out
      → DecryptedBy ctx mime security.encrypted_key out
  unfolding get_decrypted_data
  get_decrypted_data-DecryptedBy ctx security mime out h =
      decrypted_of ctx security mime out security.encrypted_key h
