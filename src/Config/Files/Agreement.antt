-- ===== src/Config/Files/Agreement.antt =====
-- When the files of a directory and a map in memory hold the same values, and what keeps them so.
-- `encode` writes a value, `id_of` is its id, and `Good` is what the checks before a save give.
use aviationwx_bridge.Prelude.{
  All, All-weaken, Bool, Bool-cases, Option, Option-cases, ap, false, inl, inr, none, refl, some,
  subst, sym, true, ◌++◌, ◌∙◌, ◌≡◌,
}
use aviationwx_bridge.Queue.Names.{Name, name_eq}
use aviationwx_bridge.Queue.Names.RoundTrip.{name_eq_sound}
use aviationwx_bridge.Queue.Names.Table.{
  Table, delete, find, find-delete_other, find-delete_self, find-store_other, find-store_self,
  store,
}
use aviationwx_bridge.Queue.Disk.Laws.{name_eq_sym}
use aviationwx_bridge.Config.Files.{
  File, Files, Paths, SaveEnv, WriteAnswer, back_up, bak, contained_config_path, cut_short,
  drop_file, ext, find_file, is_config_file, json, not_opened, put_file, remove_file, save_at,
  save_text, write_file, written,
}
use aviationwx_bridge.Config.Files.Laws.{
  All-drop_file, All-insert_file, contained_config_path-cases, differs_by_ext, drop_absent_file,
  ext-bak, ext-json, find_text, find_text-drop_other, find_text-put_other, find_text-put_self,
  name_eq-append,
}

abbrev pub path_of : Name → Name
path_of id = id ++ json

-- a write that leaves the file whole: it succeeds, or does not open the file
abbrev pub IsWhole : {J : Type 0} → WriteAnswer J → Type 0
IsWhole written = Unit
IsWhole not_opened = Unit
IsWhole (cut_short part) = ⊥

-- a file of another name is that of another id
other_id :
    {J : Type 0} (f : File J) (id other : Name)
    → f.name ≡ path_of other
    → name_eq f.name (path_of id) ≡ false
    → name_eq id other ≡ false
other_id f id other e h =
    name_eq_sym id other
    ∙ sym (name_eq-append other id json)
    ∙ ap (λ t. name_eq t (path_of id)) (sym e)
    ∙ h

pub path_differs :
    (id other : Name) → name_eq id other ≡ false → name_eq (path_of id) (path_of other) ≡ false
path_differs id other h = name_eq-append id other json ∙ h

module _ {J A : Type 0} (encode : A → Option J) (id_of : A → Name) (Good : A → Type 0) where
  -- a configuration file is that of a value in memory
  abbrev pub IsStored : Table A → File J → Type 0
  IsStored mem f =
      is_config_file f ≡ true
      → (id : Name) × (a : A) × (f.name ≡ path_of id)
        × (find id mem ≡ some a)
        × (encode a ≡ some f.content)

  -- a value in memory stands in its file
  abbrev pub IsKept : Files J → Name → A → Type 0
  IsKept fs id a =
      (id_of a ≡ id)
      × Good a
      × ((c : J) × (encode a ≡ some c) × (find_text (path_of id) fs ≡ some c))

  abbrev pub Agrees : Table A → Files J → Type 0
  Agrees mem fs =
      All (IsStored mem) fs × ((id : Name) (a : A) → find id mem ≡ some a → IsKept fs id a)

  -- the file of a value is as before
  moved :
      (fs gs : Files J) (id : Name) (a : A)
      → IsKept fs id a
      → find_text (path_of id) gs ≡ find_text (path_of id) fs
      → IsKept gs id a
  moved fs gs id a h e = (h.0, h.1, (h.2.0, h.2.1, e ∙ h.2.2))

  -- a change of a file that is no configuration file
  other_file :
      (n : Name) (c : J) (mem : Table A) (fs : Files J)
      → name_eq (ext n) json ≡ false
      → Agrees mem fs
      → Agrees mem (put_file n c fs)
  other_file n c mem fs h k =
      let new : File J = record { name = n; is_dir = false; content = c } in
      let old = All-weaken (drop_file n fs) (λ f q. q.0) (All-drop_file (IsStored mem) n fs k.0) in
      (
        All-insert_file (IsStored mem) new (drop_file n fs) (λ e. absurd (cc (h, e))) old,
        λ id a e.
            let kept = k.1 id a e in
            let differs : name_eq n (path_of id) ≡ false =
              differs_by_ext n (path_of id) (ap (λ t. name_eq (ext n) t) (ext-json id) ∙ h) in
            moved fs (put_file n c fs) id a kept (find_text-put_other n (path_of id) c fs differs),
      )

  write_other :
      (answer : WriteAnswer J) (n : Name) (c : J) (mem : Table A) (fs : Files J)
      → name_eq (ext n) json ≡ false
      → Agrees mem fs
      → Agrees mem (write_file answer n c fs).0
  unfolding write_file
  write_other written n c mem fs h k = other_file n c mem fs h k
  write_other not_opened n c mem fs h k = k
  write_other (cut_short part) n c mem fs h k = other_file n part mem fs h k

  back_up-Agrees :
      (answer : WriteAnswer J) (path : Name) (mem : Table A) (fs : Files J)
      → Agrees mem fs
      → Agrees mem (back_up answer path fs)
  unfolding back_up write_file
  back_up-Agrees answer path mem fs k = elim (Option-cases (find_file path fs)) [
    | inl e ↦ rw (e, back_up) k
    | inr (old, e) ↦
        rw (e, back_up)
          (write_other answer (path ++ bak) old mem fs (ap (λ t. name_eq t json) (ext-bak path)) k)
  ]

  still-IsKept :
      (id : Name) (a : A) (c : J) (mem : Table A) (fs : Files J)
      → id_of a ≡ id
      → Good a
      → encode a ≡ some c
      → Agrees mem fs
      → (other : Name) (b : A) → find other (store id a mem) ≡ some b
      → IsKept (put_file (path_of id) c fs) other b
  still-IsKept id a c mem fs own good e k other b found = elim (Bool-cases (name_eq id other)) [
    | inl same ↦
        let id_is : id ≡ other = name_eq_sound id other same in
        let value_is : a ≡ b = cc (rw same at found) in
        subst (λ b'. IsKept (put_file (path_of id) c fs) other b') value_is
          (subst (λ i. IsKept (put_file (path_of id) c fs) i a) id_is
            (own, good, (c, e, find_text-put_self (path_of id) c fs)))
    | inr apart ↦
        moved fs (put_file (path_of id) c fs) other b
          (k.1 other b (sym (find-store_other id other a mem apart) ∙ found))
          (find_text-put_other (path_of id) (path_of other) c fs (path_differs id other apart))
  ]

  -- storing a value and writing its file
  put-Agrees :
      (id : Name) (a : A) (c : J) (mem : Table A) (fs : Files J)
      → id_of a ≡ id
      → Good a
      → encode a ≡ some c
      → Agrees mem fs
      → Agrees (store id a mem) (put_file (path_of id) c fs)
  put-Agrees id a c mem fs own good e k =
      let new : File J = record { name = path_of id; is_dir = false; content = c } in
      let old =
        All-weaken (drop_file (path_of id) fs)
          (λ f q config.
            let s = q.0 config in
            let apart = other_id f id s.0 s.2 q.1 in
            (s.0, s.1, s.2, find-store_other id s.0 a mem apart ∙ s.3, s.4))
          (All-drop_file (IsStored mem) (path_of id) fs k.0) in
      (
        All-insert_file (IsStored (store id a mem)) new (drop_file (path_of id) fs)
            (λ config. (id, a, refl, find-store_self id a mem, e)) old,
        still-IsKept id a c mem fs own good e k,
      )

  pub drop-Agrees :
      (id : Name) (mem : Table A) (fs : Files J)
      → Agrees mem fs
      → Agrees (delete id mem) (drop_file (path_of id) fs)
  drop-Agrees id mem fs k = (
    All-weaken (drop_file (path_of id) fs)
        (λ f q config.
          let s = q.0 config in
          let apart = other_id f id s.0 s.2 q.1 in
          (s.0, s.1, s.2, find-delete_other id s.0 mem apart ∙ s.3, s.4))
        (All-drop_file (IsStored mem) (path_of id) fs k.0),
    λ other b found. elim (Bool-cases (name_eq id other)) [
      | inl same ↦
          let gone : find other (delete id mem) ≡ none =
            subst (λ i. find i (delete id mem) ≡ none) (name_eq_sound id other same)
              (find-delete_self id mem) in
          absurd (cc (gone, found))
      | inr apart ↦
          moved fs (drop_file (path_of id) fs) other b
            (k.1 other b (sym (find-delete_other id other mem apart) ∙ found))
            (find_text-drop_other (path_of id) (path_of other) fs (path_differs id other apart))
    ],
  )

  -- what a save leaves: the new value with its file, or the old ones
  abbrev pub AfterSave : Name → A → Table A → Files J × Bool → Type 0
  AfterSave id a mem (fs, true) = Agrees (store id a mem) fs
  AfterSave id a mem (fs, false) = Agrees mem fs

  write-AfterSave :
      (answer : WriteAnswer J) (id : Name) (a : A) (c : J) (mem : Table A) (fs : Files J)
      → IsWhole answer
      → id_of a ≡ id
      → Good a
      → encode a ≡ some c
      → Agrees mem fs
      → AfterSave id a mem (write_file answer (path_of id) c fs)
  unfolding write_file
  write-AfterSave written id a c mem fs w own good e k = put-Agrees id a c mem fs own good e k
  write-AfterSave not_opened id a c mem fs w own good e k = k
  write-AfterSave (cut_short part) id a c mem fs w own good e k = absurd w

  pub save_at-AfterSave :
      (env : SaveEnv J) (paths : Paths) (id : Name) (a : A) (mem : Table A) (fs : Files J)
      → IsWhole env.write
      → id_of a ≡ id
      → (contained_config_path paths id ≡ some (path_of id) → Good a)
      → Agrees mem fs
      → AfterSave id a mem (save_at env (contained_config_path paths id) (encode a) fs)
  unfolding save_at save_text
  save_at-AfterSave env paths id a mem fs w own good k =
      elim (contained_config_path-cases paths id) [
        | inl p ↦ rw p k
        | inr p ↦ elim (Option-cases (encode a)) [
          | inl e ↦ rw (p, e, save_text) (back_up-Agrees env.backup (path_of id) mem fs k)
          | inr (c, e) ↦
              rw (p, e, save_text)
                (write-AfterSave env.write id a c mem (back_up env.backup (path_of id) fs) w own
                  (good p) e (back_up-Agrees env.backup (path_of id) mem fs k))
        ]
      ]

  -- what a removal leaves: the value and its file gone, or both there
  abbrev pub AfterDelete : Name → Table A → Files J × Bool → Type 0
  AfterDelete id mem (fs, true) = Agrees (delete id mem) fs
  AfterDelete id mem (fs, false) = Agrees mem fs

  pub remove_file-AfterDelete :
      (can_remove : Bool) (id : Name) (mem : Table A) (fs : Files J)
      → Agrees mem fs
      → AfterDelete id mem (remove_file can_remove (path_of id) fs)
  unfolding remove_file
  remove_file-AfterDelete can_remove id mem fs k = elim (Option-cases (find_file (path_of id) fs)) [
    | inl e ↦ rw e (
        subst (λ gs. Agrees (delete id mem) gs) (drop_absent_file (path_of id) fs e)
          (drop-Agrees id mem fs k))
    | inr (c, e) ↦ elim (Bool-cases can_remove) [
      | inl r ↦ rw (e, r) (drop-Agrees id mem fs k)
      | inr r ↦ rw (e, r) k
    ]
  ]
