-- ===== src/Services/Storage/Partitions.antt =====
-- The read-only partitions of services/storage_service.py.

use aura_aioscpu.Prelude.{
  Bool-cases, if_ind, string_eq, nat_eq, ◌==◌, ==_iff, lookup, lookup-insert, Outcome, String, ◌≡◌,
  refl, sym, ap, ◌∙◌, inl, inr, Bool, true, false,
}
use aura_aioscpu.Prelude.Text.{concat, lstrip, first_part, contains_char}
use aura_aioscpu.Services.Storage.{
  StorageEvent, StorageService, Host, StorageError, is_slash, ends_with_slash, is_absolute, join,
  partition_of, is_writable, overlay_path, ensure_writable, publish_event, destination, write_file,
}
use aura_aioscpu.Services.Storage.Paths.{
  concat_cancel, concat_assoc, first_part-concat, lstrip_relative, is_absolute-lstrip,
  is_empty-concat, ends_with_slash-concat, IsRoot, join_below,
}

-- The path of a file in a partition.
abbrev pub file_in : String → String → String → String
file_in root partition rest = concat root (concat "/" (concat partition (concat "/" rest)))

module _ {D : Type 0} where
  overlay_path_lem :
      (rel_path : String) (s : StorageService D)
      → IsRoot s.rootfs
      → overlay_path rel_path s ≡ file_in s.rootfs "overlay" (lstrip is_slash rel_path)
  unfolding overlay_path ends_with_slash
  overlay_path_lem rel_path s root =
      let over = join_below s.rootfs "overlay" root.proper root.no_slash refl in
      ap (λ a. join a (lstrip is_slash rel_path)) over
      ∙ join_below (concat s.rootfs (concat "/" "overlay")) (lstrip is_slash rel_path)
          (is_empty-concat s.rootfs "/overlay" root.proper)
          (ends_with_slash-concat s.rootfs "/overlay" refl) (is_absolute-lstrip rel_path)
      ∙ concat_assoc s.rootfs "/overlay" (concat "/" (lstrip is_slash rel_path))

  -- A file of a read-only partition is not in the overlay.
  not_overlay :
      (rel_path partition rest : String) (s : StorageService D)
      → IsRoot s.rootfs
      → contains_char b'/' partition ≡ false
      → is_writable partition ≡ false
      → overlay_path rel_path s ≡ file_in s.rootfs partition rest
      → false ≡ true
  unfolding is_writable lookup contains_char
  not_overlay rel_path partition rest s root plain protected e =
      let same = concat_cancel s.rootfs _ _ (sym (overlay_path_lem rel_path s root) ∙ e) in
      let below = concat_cancel "/" _ _ same in
      let name : "overlay" ≡ partition =
        sym (first_part-concat "overlay" (lstrip is_slash rel_path) refl)
        ∙ ap (first_part b'/') below
        ∙ first_part-concat partition rest plain in
      sym protected ∙ ap is_writable (sym name)

  -- Nor is it where a relative path into a writable partition leads.
  not_direct :
      (rel_path partition rest : String) (s : StorageService D)
      → IsRoot s.rootfs
      → contains_char b'/' partition ≡ false
      → is_writable partition ≡ false
      → is_absolute rel_path ≡ false
      → is_writable (partition_of rel_path) ≡ true
      → join s.rootfs rel_path ≡ file_in s.rootfs partition rest
      → false ≡ true
  unfolding partition_of
  not_direct rel_path partition rest s root plain protected relative writable e =
      let below = concat_cancel "/" _ _ (
        concat_cancel s.rootfs _ _
          (sym (join_below s.rootfs rel_path root.proper root.no_slash relative) ∙ e)) in
      let name : partition_of rel_path ≡ partition =
        ap (first_part b'/') (lstrip_relative rel_path relative ∙ below)
        ∙ first_part-concat partition rest plain in
      sym protected ∙ ap is_writable (sym name) ∙ writable

  publish_files : (e : StorageEvent) (s : StorageService D) → (publish_event e s).files ≡ s.files
  unfolding publish_event
  publish_files e s =
      if_ind (λ (z : StorageService D). z.files ≡ s.files) s.has_bus (λ _. refl) (λ _. refl)

  not_destination :
      (rel_path partition rest : String) (force_overlay : Bool) (s : StorageService D)
      → IsRoot s.rootfs
      → contains_char b'/' partition ≡ false
      → is_writable partition ≡ false
      → is_absolute rel_path ≡ false
      → destination rel_path force_overlay s ≡ file_in s.rootfs partition rest
      → false ≡ true
  unfolding destination ensure_writable
  not_destination rel_path partition rest true s root plain protected relative e =
      not_overlay rel_path partition rest s root plain protected e
  not_destination rel_path partition rest false s root plain protected relative e =
      elim (Bool-cases (is_writable (partition_of rel_path))) [
        | inl writable ↦
            not_direct rel_path partition rest s root plain protected relative writable
              (rw (writable) at e)
        | inr routed ↦ not_overlay rel_path partition rest s root plain protected (rw (routed) at e)
      ]

  -- A write to a relative path whose destination the host takes as it is written, where no `.`, `..` or
  -- link leads elsewhere, changes no file below `rootfs` in a read-only partition, whether or not the
  -- overlay is forced.
  pub write_file_protects :
      (host : Host D) (rel_path : String) (d : D) (force_overlay : Bool) (s : StorageService D)
      (partition rest : String)
      → IsRoot s.rootfs
      → is_absolute rel_path ≡ false
      → host.resolve (destination rel_path force_overlay s) ≡ destination rel_path force_overlay s
      → contains_char b'/' partition ≡ false
      → is_writable partition ≡ false
      → lookup
          (file_in s.rootfs partition rest)
          (write_file host rel_path d force_overlay s).1.files
        ≡ lookup (file_in s.rootfs partition rest) s.files
  unfolding write_file
  write_file_protects host rel_path d force_overlay s partition rest root relative straight plain
        protected =
      let q = file_in s.rootfs partition rest in
      let dest = destination rel_path force_overlay s in
      if_ind
        (λ (z : Outcome StorageError (Unit {0}) × StorageService D).
          lookup q z.1.files ≡ lookup q s.files)
        (host.writes dest)
        (λ _.
          ap (lookup q) (publish_files _ _)
          ∙ lookup-insert (host.resolve dest) q d s.files
          ∙ elim (Bool-cases (host.resolve dest == q)) [
            | inr other ↦ rw (other) refl
            | inl same ↦
                let clash =
                  not_destination rel_path partition rest force_overlay s root plain protected
                    relative (sym straight ∙ (==_iff (host.resolve dest) q).0 same) in
                cc
          ])
        (λ _. refl)
