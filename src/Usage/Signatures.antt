-- ===== src/Usage/Signatures.antt =====
-- What it takes for an import to be verified or accepted.
use digital_thread.Shared.{
  ℕ, String, ◌≡◌, refl, inl, inr, sym, ◌∙◌, subst, ◌||◌, Bool, true, false, Option, none, some,
  List, [], ◌∷◌, arith, eq_iff, ◌==◌, is_some, truthy, find, find-Memᴰ, find_passes,
  update_first-Memᴰ, Bool-cases, Option-cases, if_cases,
}
use mathlib.Core.List.{Memᴰ}
use mathlib.Core.Option.{some-injective}
use digital_thread.Json.{Json}
use digital_thread.Usage.Exchange.{
  Partner, Reason, DataImport, Office, Reply, ImportInput, Call, receiving, verifying, accepting,
  acceptable, checked, accepted, judge_signature, new_import, find_import, put_import,
  receive_import, verify_import, accept_import, answer, after,
}

-- Verified, or accepted at some time.
abbrev pub is_trusted : DataImport → Bool
is_trusted i = i.verified || is_some i.accepted_at

module _ (check : String → String → String → Option Bool) where
  judge_signature-true :
      (o : Option Partner) (hash s : String)
      → (judge_signature check o hash s).0 ≡ true
      → (p : Partner) × (pem : String) × (o ≡ some p)
        × (truthy p.certificate_pem ≡ some pem)
        × (check pem hash s ≡ some true)
  unfolding judge_signature
  judge_signature-true none hash s h = absurd (ground arith)
  judge_signature-true (some p) hash s h = elim (Option-cases (truthy p.certificate_pem)) [
    | inl e ↦ absurd (ground arith)
    | inr (pem, e) ↦ (p, pem, refl, e, ground arith)
  ]

  -- In one of the calls the signature of the manifest's hash verified, under the certificate that the
  -- table of partners then held for the source.
  pub record IsVouched (calls : List Call) (source hash : String) (given : Option String)
      : Type 0 where
    pub partners : List Partner
    pub id : String
    pub called : Memᴰ (verifying partners id) calls
    pub partner : Partner
    pub known : find (λ p. p.name == source) partners ≡ some partner
    pub pem : String
    pub key : truthy partner.certificate_pem ≡ some pem
    pub signature : String
    pub signed : truthy given ≡ some signature
    pub genuine : check pem hash signature ≡ some true

  module _ (stringify : Json → String) (sha256 : String → String) (calls : List Call) where
    pub record IsSound (i : DataImport) : Type 0 where
      pub policy : acceptable i.policy ≡ true
      pub hashed : i.manifest_hash ≡ sha256 i.manifest
      pub vouched :
          is_trusted i ≡ true → IsVouched calls i.source_partner i.manifest_hash i.signature

    abbrev AllSound : Office → Type 0
    AllSound d = (i : DataImport) → Memᴰ i d.imports → IsSound i

    find_import_id :
        (id : String) (d : Office) (i : DataImport) → find_import id d ≡ some i → i.id ≡ id
    unfolding find_import
    find_import_id id d i h = (eq_iff i.id id).0 (find_passes (λ r. r.id == id) d.imports i h)

    found-IsSound :
        (id : String) (d : Office) (i : DataImport)
        → find_import id d ≡ some i
        → AllSound d
        → IsSound i
    unfolding find_import
    found-IsSound id d i h all = all i (find-Memᴰ (λ r. r.id == id) d.imports i h)

    put_import-AllSound :
        (id : String) (f : DataImport → DataImport) (d : Office) (i : DataImport)
        → find_import id d ≡ some i
        → IsSound (f i)
        → AllSound d
        → AllSound (put_import i f d).1
    unfolding put_import find_import
    put_import-AllSound id f d i h sound all j m =
        elim (update_first-Memᴰ (λ r. r.id == i.id) f d.imports m) [
          | inl old ↦ all j old
          | inr (a, found, e) ↦
              let same : a ≡ i =
                some-injective _ _ (sym (rw (find_import_id id d i h) at found) ∙ h) in
              subst IsSound (sym e) (subst (λ x. IsSound (f x)) (sym same) sound)
        ]

    verify_import-AllSound :
        (partners : List Partner) (id : String) (d : Office)
        → Memᴰ (verifying partners id) calls
        → AllSound d
        → AllSound (verify_import check partners id d).1
    unfolding verify_import
    verify_import-AllSound partners id d m all = elim (Option-cases (find_import id d)) [
      | inl e ↦ rw (e, verify_import) all
      | inr (i, e) ↦
          let s = found-IsSound id d i e all in
          elim (Option-cases (truthy i.signature)) [
            | inl k ↦
                rw (e, verify_import, k)
                  (put_import-AllSound id (checked false (some Reason.no_signature)) d i e
                    (record {
                      policy = s.policy;
                      hashed = s.hashed;
                      vouched = λ t. s.vouched (ground arith);
                    })
                    all)
            | inr (g, k) ↦
                rw (e, verify_import, k)
                  (put_import-AllSound id _ d i e
                    (record { policy = s.policy; hashed = s.hashed; vouched = λ t. now i s g k t })
                    all)
          ]
    ]
      where
        now :
            (i : DataImport)
            → IsSound i
            → (g : String) → truthy i.signature ≡ some g
            → ((judge_signature check
                  (find (λ p. p.name == i.source_partner) partners)
                  i.manifest_hash
                  g).0
                || is_some i.accepted_at)
              ≡ true
            → IsVouched calls i.source_partner i.manifest_hash i.signature
        now i s g k t =
            elim (Bool-cases
              (judge_signature check (find (λ p. p.name == i.source_partner) partners)
                i.manifest_hash g).0) [
                  | inl fine ↦
                      let (p, pem, known, key, genuine) = judge_signature-true _ _ _ fine in
                      record {
                        partners = partners;
                        id = id;
                        called = m;
                        partner = p;
                        known = known;
                        pem = pem;
                        key = key;
                        signature = g;
                        signed = k;
                        genuine = genuine;
                      }
                  | inr bad ↦ s.vouched (ground arith)
                ]

    accept_import-AllSound :
        (t : ℕ) (id by : String) (d : Office) → AllSound d → AllSound (accept_import t id by d).1
    unfolding accept_import
    accept_import-AllSound t id by d all = elim (Option-cases (find_import id d)) [
      | inl e ↦ rw (e, accept_import) all
      | inr (i, e) ↦
          let s = found-IsSound id d i e all in
          rw (e, accept_import)
            (if_cases (λ (o : Reply DataImport × Office). AllSound o.1) i.verified _ _
              (λ v.
                put_import-AllSound id (accepted t by) d i e
                  (record {
                    policy = s.policy;
                    hashed = s.hashed;
                    vouched = λ _. s.vouched (ground arith);
                  })
                  all)
              (λ v. all))
    ]

    receive_import-AllSound :
        (id : String) (i : ImportInput) (d : Office)
        → AllSound d
        → AllSound (receive_import stringify sha256 id i d).1
    unfolding receive_import
    receive_import-AllSound id i d all = elim (Bool-cases (acceptable i.policy)) [
      | inl e ↦ rw (e, receive_import) (λ j m. added e j m)
      | inr e ↦ rw (e, receive_import) all
    ]
      where
        added :
            acceptable i.policy ≡ true
            → (j : DataImport) → Memᴰ j (new_import stringify sha256 id i ∷ d.imports)
            → IsSound j
        added e j (Memᴰ.head k) =
            subst IsSound (sym k)
              (record { policy = e; hashed = refl; vouched = λ t. absurd (ground arith) })
        added e j (Memᴰ.tail k) = all j k

    after-AllSound :
        (cs : List Call) (d : Office)
        → ((c : Call) → Memᴰ c cs → Memᴰ c calls)
        → AllSound d
        → AllSound (after stringify sha256 check cs d)
    unfolding after answer
    after-AllSound [] d sub all = all
    after-AllSound (receiving id i ∷ cs) d sub all =
        after-AllSound cs _ (λ c m. sub c (Memᴰ.tail m)) (receive_import-AllSound id i d all)
    after-AllSound (verifying ps id ∷ cs) d sub all =
        after-AllSound cs _ (λ c m. sub c (Memᴰ.tail m))
          (verify_import-AllSound ps id d (sub _ (Memᴰ.head refl)) all)
    after-AllSound (accepting t id by ∷ cs) d sub all =
        after-AllSound cs _ (λ c m. sub c (Memᴰ.tail m)) (accept_import-AllSound t id by d all)

  -- Whatever is received, verified and accepted, in any order and with any table of partners at each
  -- verification: every stored import keeps the hash of its manifest and has no policy or a valid
  -- one, and one that is verified or was accepted had its hash's signature verified in one of these
  -- calls, under the certificate that its source then had.
  pub after-IsSound :
      (stringify : Json → String) (sha256 : String → String) (calls : List Call) (d : Office)
      → d.imports ≡ []
      → (i : DataImport) → Memᴰ i (after stringify sha256 check calls d).imports
      → IsSound stringify sha256 calls i
  after-IsSound stringify sha256 calls d none_yet =
      after-AllSound stringify sha256 calls calls d (λ c m. m)
        (λ i m. elim (subst (Memᴰ i) none_yet m) [ ])
