-- ===== src/Message/Process/Steps.antt =====
-- The loop of `AS4Message.process` over the parts of a message.
use mathlib.Core.Path.{subst}
use as_lib.Base.{
  ℕ, ◌≤◌, ◌≡◌, refl, ap, sym, ◌∙◌, String, true, false, some, none, inl, inr, List, [], ◌∷◌, length,
  arith, string_eq, ◌==◌, ==→eq, ==_refl, Option, Bool-cases, All,
}
use as_lib.Base.Text.{remove_prefix}
use as_lib.Base.Dict
use as_lib.Base.Dict.{Dict, get-put}
use as_lib.Platform.{Bytes, Crypto}
use as_lib.Outcome.{Raised, Result, ok, err}
use as_lib.Outcome.Exec.{Exec, continue}
use as_lib.Models.UserMessage.{PartInfo}
use as_lib.Documents.{decompress}
use as_lib.Documents.Payloads.{Zipped, decompress_lem}
use as_lib.Message.{present, or_blank}
use as_lib.Message.Process.{process_part, process_round, process_parts}

put-keys :
    {V : Type 0} (d : Dict V) (k : String) (v w : V)
    → Dict.get d k ≡ some w
    → Dict.keys (Dict.put d k v) ≡ Dict.keys d
unfolding Dict.get Dict.put Dict.keys
put-keys [] k v w h = ground arith
put-keys ((j, u) ∷ d) k v w h = ground (arith, put-keys d k v w)

module _ (c : Crypto) (maximum_size : ℕ) (mime : Dict Bytes) where
  -- The id of the attachment that a part names.
  abbrev pub identifier : PartInfo → String
  identifier p = remove_prefix (or_blank p.href) "cid:"

  -- What one round of the loop does, from the part and the contents before it.
  pub data Round (p : PartInfo) (d : Dict Bytes) : Result (Unit {0}) × Dict Bytes → Type 0 where
    unnamed : present p.href ≡ false → Round p d (ok tt, d)
    unattached :
        (e : Raised)
        → present p.href ≡ true
        → Dict.has_key mime (identifier p) ≡ false
        → Round p d (err e, d)
    not_encrypted :
        present p.href ≡ true
        → Dict.has_key mime (identifier p) ≡ true
        → Dict.get d (identifier p) ≡ none
        → Round p d (ok tt, d)
    refused :
        (e : Raised) (content : Bytes)
        → Dict.get d (identifier p) ≡ some content
        → decompress c p.part_properties content maximum_size ≡ err e
        → Round p d (err e, d)
    released :
        (content out : Bytes)
        → present p.href ≡ true
        → Dict.has_key mime (identifier p) ≡ true
        → Dict.get d (identifier p) ≡ some content
        → decompress c p.part_properties content maximum_size ≡ ok out
        → Round p d (ok tt, Dict.put d (identifier p) out)

  decompressed-Round :
      (p : PartInfo) (d : Dict Bytes) (content : Bytes) (m : Result Bytes)
      → present p.href ≡ true
      → Dict.has_key mime (identifier p) ≡ true
      → Dict.get d (identifier p) ≡ some content
      → decompress c p.part_properties content maximum_size ≡ m
      → Round p d (process_round c maximum_size p mime d)
  unfolding process_round process_part
  decompressed-Round p d content (ok out) y k g m = rw (y, k, g, m) (released content out y k g m)
  decompressed-Round p d content (err e) y k g m = rw (y, k, g, m) (refused e content g m)

  attached-Round :
      (p : PartInfo) (d : Dict Bytes) (o : Option Bytes)
      → present p.href ≡ true
      → Dict.has_key mime (identifier p) ≡ true
      → Dict.get d (identifier p) ≡ o
      → Round p d (process_round c maximum_size p mime d)
  unfolding process_round process_part
  attached-Round p d none y k g = rw (y, k, g) (not_encrypted y k g)
  attached-Round p d (some content) y k g = decompressed-Round p d content _ y k g refl

  pub process_round-Round :
      (p : PartInfo) (d : Dict Bytes) → Round p d (process_round c maximum_size p mime d)
  unfolding process_round process_part
  process_round-Round p d = elim (Bool-cases (present p.href)) [
    | inr n ↦ rw n (unnamed n)
    | inl y ↦ elim (Bool-cases (Dict.has_key mime (identifier p))) [
      | inr n ↦ rw (y, n) (unattached _ y n)
      | inl k ↦ attached-Round p d _ y k refl
    ]
  ]

  Round-keys :
      (p : PartInfo) (d : Dict Bytes) (r : Result (Unit {0}) × Dict Bytes)
      → Round p d r
      → Dict.keys r.1 ≡ Dict.keys d
  Round-keys p d _ (unnamed n) = refl
  Round-keys p d _ (unattached e y n) = refl
  Round-keys p d _ (not_encrypted y k g) = refl
  Round-keys p d _ (refused e content g m) = refl
  Round-keys p d _ (released content out y k g m) = put-keys d (identifier p) out content g

  rest-keys :
      (d : Dict Bytes) (r : Result (Unit {0}) × Dict Bytes) (rest : Exec (Dict Bytes) (Unit {0}))
      → Dict.keys r.1 ≡ Dict.keys d
      → ((e : Dict Bytes) → Dict.keys (rest e).1 ≡ Dict.keys e)
      → Dict.keys (continue r.0 (λ _. rest) r.1).1 ≡ Dict.keys d
  rest-keys d (ok u, e) rest same kept = kept e ∙ same
  rest-keys d (err x, e) rest same kept = same

  -- The loop neither adds nor drops an entry, whether it ends or raises: the contents afterwards
  -- are under the ids of the contents before it, in their order.
  pub process_parts-keys :
      (parts : List PartInfo) (d : Dict Bytes)
      → Dict.keys (process_parts c maximum_size parts mime d).1 ≡ Dict.keys d
  unfolding process_parts
  process_parts-keys [] d = refl
  process_parts-keys (p ∷ parts) d =
      rest-keys d (process_round c maximum_size p mime d) (process_parts c maximum_size parts mime)
        (Round-keys p d _ (process_round-Round p d)) (process_parts-keys parts)

  -- The content under an id, if any, is within the bound.
  abbrev pub Within : Dict Bytes → String → Type 0
  Within d id = (content : Bytes) → Dict.get d id ≡ some content → length content ≤ maximum_size

  put_small :
      (d : Dict Bytes) (k id : String) (out : Bytes)
      → length out ≤ maximum_size
      → Within d id
      → Within (Dict.put d k out) id
  put_small d k id out small w content e = elim (Bool-cases (id == k)) [
    | inl y ↦ ground (arith, get-put d k out id)
    | inr n ↦ w content (ground (arith, get-put d k out id))
  ]

  same_put :
      (d : Dict Bytes) (k id : String) (content : Bytes)
      → Dict.get d k ≡ some content
      → Within d id
      → Within (Dict.put d k content) id
  same_put d k id out g w content e = elim (Bool-cases (id == k)) [
    | inl y ↦ w content ((ap (Dict.get d) (==→eq id k y) ∙ g) ∙ ground (arith, get-put d k out id))
    | inr n ↦ w content (ground (arith, get-put d k out id))
  ]

  Round-Within :
      (p : PartInfo) (d : Dict Bytes) (r : Result (Unit {0}) × Dict Bytes)
      → Round p d r
      → (id : String) → Within d id
      → Within r.1 id
  Round-Within p d _ (unnamed n) id w = w
  Round-Within p d _ (unattached e y n) id w = w
  Round-Within p d _ (not_encrypted y k g) id w = w
  Round-Within p d _ (refused e content g m) id w = w
  Round-Within p d _ (released content out y k g m) id w =
      elim (decompress_lem c p.part_properties content maximum_size out m) [
        | inl (z, same) ↦ same_put d (identifier p) id out (g ∙ ap some (sym same)) w
        | inr (z, from, small) ↦ put_small d (identifier p) id out small w
      ]

  -- What a part that the loop has passed says of the message.
  pub record Passed (out : Dict Bytes) (p : PartInfo) : Type 0 where
    pub attached : present p.href ≡ true → Dict.has_key mime (identifier p) ≡ true
    pub bounded : present p.href ≡ true → Zipped p.part_properties → Within out (identifier p)

  absent-Within : (d : Dict Bytes) (id : String) → Dict.get d id ≡ none → Within d id
  absent-Within d id g content e = ground arith

  put-Within :
      (d : Dict Bytes) (k : String) (out : Bytes)
      → length out ≤ maximum_size
      → Within (Dict.put d k out) k
  put-Within d k out small content e = ground (arith, get-put d k out k, ==_refl k)

  released-Within :
      (p : PartInfo) (d : Dict Bytes) (content out : Bytes)
      → decompress c p.part_properties content maximum_size ≡ ok out
      → Zipped p.part_properties
      → Within (Dict.put d (identifier p) out) (identifier p)
  released-Within p d content out m z =
      elim (decompress_lem c p.part_properties content maximum_size out m) [
        | inl (n, same) ↦ ground arith
        | inr (y, from, small) ↦ put-Within d (identifier p) out small
      ]

  Round-Passed :
      (p : PartInfo) (d : Dict Bytes) (r : Result (Unit {0}) × Dict Bytes)
      → Round p d r
      → r.0 ≡ ok tt
      → Passed r.1 p
  Round-Passed p d _ (unnamed n) e = record {
    attached = λ y. ground arith;
    bounded = λ y z. ground arith;
  }
  Round-Passed p d _ (unattached x y n) e = ground arith
  Round-Passed p d _ (not_encrypted y k g) e = record {
    attached = λ _. k;
    bounded = λ _ _. absent-Within d (identifier p) g;
  }
  Round-Passed p d _ (refused x content g m) e = ground arith
  Round-Passed p d _ (released content plain y k g m) e = record {
    attached = λ _. k;
    bounded = λ _ z. released-Within p d content plain m z;
  }

  rest-eq-ok :
      (r : Result (Unit {0}) × Dict Bytes) (rest : Exec (Dict Bytes) (Unit {0})) (out : Dict Bytes)
      → continue r.0 (λ _. rest) r.1 ≡ (ok tt, out)
      → (r.0 ≡ ok tt) × (rest r.1 ≡ (ok tt, out))
  rest-eq-ok (ok u, e) rest out h = (refl, h)
  rest-eq-ok (err x, e) rest out h = ground arith

  parts-Within :
      (parts : List PartInfo) (d out : Dict Bytes) (id : String)
      → process_parts c maximum_size parts mime d ≡ (ok tt, out)
      → Within d id
      → Within out id
  unfolding process_parts
  parts-Within [] d out id h w = subst (λ e. Within e id) (ap (λ r. r.1) h) w
  parts-Within (p ∷ parts) d out id h w =
      let (first, h1) =
        rest-eq-ok (process_round c maximum_size p mime d) (process_parts c maximum_size parts mime)
          out h in
      parts-Within parts _ out id h1 (Round-Within p d _ (process_round-Round p d) id w)

  -- When the loop over the parts ends without raising, then every part with an href names an
  -- attachment of the message, and what is handed on for a part that declares gzip has at most
  -- the size that the policy allows, however many parts name the same attachment.
  pub process_parts-Passed :
      (parts : List PartInfo) (d out : Dict Bytes)
      → process_parts c maximum_size parts mime d ≡ (ok tt, out)
      → All (Passed out) parts
  unfolding process_parts
  process_parts-Passed [] d out h = tt
  process_parts-Passed (p ∷ parts) d out h =
      let (first, h1) =
        rest-eq-ok (process_round c maximum_size p mime d) (process_parts c maximum_size parts mime)
          out h in
      let passed = Round-Passed p d _ (process_round-Round p d) first in
      (
        record {
          attached = passed.attached;
          bounded = λ y z. parts-Within parts _ out (identifier p) h1 (passed.bounded y z);
        },
        process_parts-Passed parts _ out h1,
      )
