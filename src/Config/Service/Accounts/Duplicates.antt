-- ===== src/Config/Service/Accounts/Duplicates.antt =====
-- What the check for duplicate SFTP accounts gives a map of cameras.
use aviationwx_bridge.Prelude.{
  Bool, Bool-cases, [], ap, false, inl, inr, none, refl, some, subst, sym, true, ℕ, ◌∙◌, ◌∷◌, ◌≡◌,
}
use aviationwx_bridge.Queue.Names.{Name, name_eq}
use aviationwx_bridge.Queue.Names.RoundTrip.{name_eq_sound}
use aviationwx_bridge.Queue.Names.Table.{
  Table, delete, find, find-delete_other, find-delete_self, find-store_other, store,
}
use aviationwx_bridge.Queue.Disk.Laws.{name_eq_sym}
use aviationwx_bridge.Config.Ids.{validate_config_file_id}
use aviationwx_bridge.Config.Values.{Camera}
use aviationwx_bridge.Config.Upload.{check_duplicate_upload, duplicate_loop, identity_of}
use aviationwx_bridge.Config.Service.{Library, valid_id}

excluded :
    (id exclude other : Name)
    → name_eq id exclude ≡ true
    → name_eq other exclude ≡ false
    → name_eq id other ≡ false
excluded id exclude other x n =
    ap (λ m. name_eq m other) (name_eq_sound id exclude x) ∙ name_eq_sym exclude other ∙ n

validated :
    (is_local : Name → Bool) (id : Name)
    → validate_config_file_id is_local id ≡ true
    → name_eq id [] ≡ false
unfolding validate_config_file_id
validated is_local [] h = absurd (cc h)
validated is_local (c ∷ s) h = refl

still :
    (id gone : Name) (cams : Table Camera) (c : Camera)
    → find id (delete gone cams) ≡ some c
    → find id cams ≡ some c
still id gone cams c f = elim (Bool-cases (name_eq gone id)) [
  | inr e ↦ sym (find-delete_other gone id cams e) ∙ f
  | inl e ↦
      let none_left : find id (delete gone cams) ≡ none =
        subst (λ i. find i (delete gone cams) ≡ none) (name_eq_sound gone id e)
          (find-delete_self gone cams) in
      absurd (cc (none_left, f))
]

no_new :
    (id gone : Name) (cams : Table Camera) → find id cams ≡ none → find id (delete gone cams) ≡ none
no_new id gone cams h = elim (Bool-cases (name_eq gone id)) [
  | inr e ↦ find-delete_other gone id cams e ∙ h
  | inl e ↦
      subst (λ i. find i (delete gone cams) ≡ none) (name_eq_sound gone id e)
        (find-delete_self gone cams)
]

pub not_empty :
    (cams : Table Camera) (other : Name) (d : Camera)
    → find [] cams ≡ none
    → find other cams ≡ some d
    → name_eq other [] ≡ false
not_empty cams [] d h f = absurd (cc (h, f))
not_empty cams (c ∷ s) d h f = refl

-- the loop finds every other camera with the key
duplicate_loop_lem :
    (lower : ℕ → ℕ) (exclude key : Name) (cams : Table Camera) (other : Name) (d : Camera)
    → duplicate_loop lower exclude key cams ≡ false
    → find other cams ≡ some d
    → name_eq other exclude ≡ false
    → name_eq (identity_of lower d.upload) key ≡ false
unfolding duplicate_loop
duplicate_loop_lem lower exclude key [] other d h f n = absurd (cc f)
duplicate_loop_lem lower exclude key (p ∷ ps) other d h f n =
    elim (Bool-cases (name_eq p.0 exclude)) [
      | inl x ↦
          let apart : name_eq p.0 other ≡ false = excluded p.0 exclude other x n in
          duplicate_loop_lem lower exclude key ps other d (rw x at h) (rw apart at f) n
      | inr x ↦ elim (Bool-cases (name_eq (identity_of lower p.1.upload) key)) [
        | inl y ↦ absurd (cc (rw (x, y) at h))
        | inr y ↦ elim (Bool-cases (name_eq p.0 other)) [
          | inl z ↦
              let is_d : p.1 ≡ d = cc (rw z at f) in
              subst (λ c. name_eq (identity_of lower c.upload) key ≡ false) is_d y
          | inr z ↦ duplicate_loop_lem lower exclude key ps other d (rw (x, y) at h) (rw z at f) n
        ]
      ]
    ]

module _ {J : Type 0} (lib : Library J) where
  -- the account of a camera, empty if it is not complete
  abbrev pub account : Camera → Name
  account c = identity_of lib.lower c.upload

  -- no camera has the empty id, and cameras with different ids have different accounts
  abbrev pub HasOwnAccounts : Table Camera → Type 0
  HasOwnAccounts cams =
      (find [] cams ≡ none)
      × ((id other : Name) (c d : Camera)
          → find id cams ≡ some c
          → find other cams ≡ some d
          → name_eq id other ≡ false
          → name_eq (account c) [] ≡ false
          → name_eq (account c) (account d) ≡ false)

  -- the new camera against the others
  checked :
      (exclude : Name) (cam : Camera) (cams : Table Camera) (other : Name) (d : Camera)
      → check_duplicate_upload lib.lower exclude cam.upload cams ≡ false
      → find other cams ≡ some d
      → name_eq other exclude ≡ false
      → name_eq (account cam) [] ≡ false
      → name_eq (account d) (account cam) ≡ false
  unfolding check_duplicate_upload
  checked exclude cam cams other d h f n e =
      duplicate_loop_lem lib.lower exclude (account cam) cams other d (rw e at h) f n

  -- the same for a new camera whose account may not be complete
  against :
      (exclude : Name) (cam : Camera) (cams : Table Camera) (other : Name) (d : Camera)
      → check_duplicate_upload lib.lower exclude cam.upload cams ≡ false
      → find other cams ≡ some d
      → name_eq other exclude ≡ false
      → name_eq (account d) [] ≡ false
      → name_eq (account d) (account cam) ≡ false
  against exclude cam cams other d h f n e = elim (Bool-cases (name_eq (account cam) [])) [
    | inr x ↦ checked exclude cam cams other d h f n x
    | inl x ↦ subst (λ a. name_eq (account d) a ≡ false) (sym (name_eq_sound (account cam) [] x)) e
  ]

  stored :
      (cam c : Camera) (id : Name) (cams : Table Camera)
      → name_eq cam.id id ≡ true
      → find id (store cam.id cam cams) ≡ some c
      → cam ≡ c
  stored cam c id cams x f = cc (rw x at f)

  pub store-HasOwnAccounts :
      (exclude : Name) (cam : Camera) (cams : Table Camera)
      → valid_id lib cam.id ≡ true
      → ((other : Name) (d : Camera)
          → find other cams ≡ some d
          → name_eq cam.id other ≡ false
          → name_eq other exclude ≡ false)
      → check_duplicate_upload lib.lower exclude cam.upload cams ≡ false
      → HasOwnAccounts cams
      → HasOwnAccounts (store cam.id cam cams)
  store-HasOwnAccounts exclude cam cams v n h k = (
    find-store_other cam.id [] cam cams (validated lib.paths.is_local cam.id v) ∙ k.0,
    λ id other c d f g apart e. elim (Bool-cases (name_eq cam.id id)) [
      | inl x ↦
          let is_new : cam ≡ c = stored cam c id cams x f in
          let old : name_eq cam.id other ≡ false =
            ap (λ i. name_eq i other) (name_eq_sound cam.id id x) ∙ apart in
          let d_old : find other cams ≡ some d =
            sym (find-store_other cam.id other cam cams old) ∙ g in
          let e_new : name_eq (account cam) [] ≡ false =
            subst (λ c'. name_eq (account c') [] ≡ false) (sym is_new) e in
          subst (λ c'. name_eq (account c') (account d) ≡ false) is_new
            (name_eq_sym (account cam) (account d)
              ∙ checked exclude cam cams other d h d_old (n other d d_old old) e_new)
      | inr x ↦
          let c_old : find id cams ≡ some c = sym (find-store_other cam.id id cam cams x) ∙ f in
          elim (Bool-cases (name_eq cam.id other)) [
            | inl y ↦
                let is_new : cam ≡ d = stored cam d other cams y g in
                subst (λ d'. name_eq (account c) (account d') ≡ false) is_new
                  (against exclude cam cams id c h c_old (n id c c_old x) e)
            | inr y ↦
                k.1 id other c d c_old (sym (find-store_other cam.id other cam cams y) ∙ g) apart e
          ]
    ],
  )

  pub delete-HasOwnAccounts :
      (gone : Name) (cams : Table Camera) → HasOwnAccounts cams → HasOwnAccounts (delete gone cams)
  delete-HasOwnAccounts gone cams k = (
    no_new [] gone cams k.0,
    λ id other c d f g apart e.
        k.1 id other c d (still id gone cams c f) (still other gone cams d g) apart e,
  )
