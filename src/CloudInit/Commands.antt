-- ===== src/CloudInit/Commands.antt =====
-- What becomes of a `runcmd` entry: `Cmd.UnmarshalJSON` and `hackKubeadmIgnoreErrors`.
use cluster_api_provider_kub.Prelude.{
  [], ◌∷◌, ◌++◌, ◌≡◌, refl, ◌↔◌, ◌⊎◌, inl, inr, arith, codes, ◌||◌, if◌then◌else◌, ◌≢◌,
}
use cluster_api_provider_kub.Go.{done, panic}
use cluster_api_provider_kub.Go.Text.{Bytes, contains, bytes_eq}
use cluster_api_provider_kub.CloudInit.Parsers.{
  Parsers, Json, null, str, arr, nil, cons, Items, bool, num, obj,
}
use cluster_api_provider_kub.CloudInit.RunCmd.{
  Cmd, unmarshal_json, decode_strings, decode_string, decode_items, hack_kubeadm_ignore_errors,
  hack_string, hack_list, ignore_flag,
}

-- A list with a first element never makes `Cmd.UnmarshalJSON` panic.
cons-no_panic : (p : Parsers) (j : Json) (js : Items) → unmarshal_json p (arr (cons j js)) ≢ panic
unfolding unmarshal_json decode_strings decode_items decode_string
cons-no_panic p j js = ground arith

-- `Cmd.UnmarshalJSON` panics at null and at the empty list, and at nothing else.
pub unmarshal_json-panic_iff :
    (p : Parsers) (j : Json) → (unmarshal_json p j ≡ panic) ↔ ((j ≡ null) ⊎ (j ≡ arr nil))
unfolding unmarshal_json decode_strings decode_items decode_string
unmarshal_json-panic_iff p null = (λ e. inl refl, λ h. refl)
unmarshal_json-panic_iff p (bool b) =
    (λ e. absurd (cc e), λ h. elim h [ inl e ↦ cc e | inr e ↦ cc e ])
unmarshal_json-panic_iff p (num n) =
    (λ e. absurd (cc e), λ h. elim h [ inl e ↦ cc e | inr e ↦ cc e ])
unmarshal_json-panic_iff p (str s) =
    (λ e. absurd (cc e), λ h. elim h [ inl e ↦ cc e | inr e ↦ cc e ])
unmarshal_json-panic_iff p (arr nil) = (λ e. inr refl, λ h. refl)
unmarshal_json-panic_iff p (arr (cons j js)) =
    (λ e. absurd (cons-no_panic p j js e), λ h. elim h [ inl e ↦ cc e | inr e ↦ cc e ])
unmarshal_json-panic_iff p (obj fs) =
    (λ e. absurd (cc e), λ h. elim h [ inl e ↦ cc e | inr e ↦ cc e ])

-- An entry that is one text becomes `/bin/sh -c` with that text as its one argument. After
-- `hackKubeadmIgnoreErrors` the text ends in the flag where it has `kubeadm init` or `kubeadm join`
-- in it, and is unchanged otherwise.
runcmd_text :
    (p : Parsers) (s : Bytes)
    → (c : Cmd) × (unmarshal_json p (str s) ≡ done c)
      × ((hack_kubeadm_ignore_errors c).cmd ≡ codes "/bin/sh")
      × ((hack_kubeadm_ignore_errors c).args
          ≡ codes "-c"
            ∷ (if contains s (codes "kubeadm init") || contains s (codes "kubeadm join")
                then s ++ 32 ∷ ignore_flag
                else s)
            ∷ [])
unfolding unmarshal_json decode_strings decode_string hack_kubeadm_ignore_errors hack_string
    hack_list bytes_eq
runcmd_text p s =
    (record { cmd = codes "/bin/sh"; args = codes "-c" ∷ s ∷ [] }, refl, refl, ground arith)
