-- ===== src/Services/Storage/Reads.antt =====
-- What `read_file` of services/storage_service.py gives of a file that `write_file` has written.

use aura_aioscpu.Prelude.{
  Bool-cases, if_ind, string_eq, nat_eq, ◌==◌, ==_iff, lookup, insert, lookup-insert,
  lookup-insert_self, ok, String, ◌≡◌, refl, sym, ap, ◌∙◌, ◌⊎◌, inl, inr, Bool, true, none, some,
}
use aura_aioscpu.Services.Storage.{
  StorageEvent, write_event, StorageService, Host, join, overlay_path, read_file, publish_event,
  destination, write_file,
}

module _ {D : Type 0} (host : Host D) where
  read_inserted_over :
      (rel_path dest : String) (d : D) (s : StorageService D)
      → dest ≡ host.resolve (overlay_path rel_path s)
      → read_file host rel_path (record s { files = insert dest d s.files }) ≡ ok d
  unfolding read_file overlay_path
  read_inserted_over rel_path dest d s over =
      let found : lookup (host.resolve (overlay_path rel_path s)) (insert dest d s.files) ≡ some d =
        ap (λ p. lookup p (insert dest d s.files)) (sym over) ∙ lookup-insert_self dest d s.files in
      rw (found, read_file) refl

  read_inserted :
      (rel_path dest : String) (d : D) (s : StorageService D)
      → (dest ≡ host.resolve (overlay_path rel_path s))
        ⊎ ((dest ≡ host.resolve (join s.rootfs rel_path))
            × (lookup (host.resolve (overlay_path rel_path s)) s.files ≡ none))
      → read_file host rel_path (record s { files = insert dest d s.files }) ≡ ok d
  unfolding read_file overlay_path
  read_inserted rel_path dest d s (inl over) = read_inserted_over rel_path dest d s over
  read_inserted rel_path dest d s (inr (direct, hidden)) =
      let over = host.resolve (overlay_path rel_path s) in
      elim (Bool-cases (dest == over)) [
        | inl same ↦ read_inserted_over rel_path dest d s ((==_iff dest over).0 same)
        | inr other ↦
            let still : lookup over (insert dest d s.files) ≡ none =
              lookup-insert dest over d s.files ∙ rw (other) hidden in
            let found : lookup (host.resolve (join s.rootfs rel_path)) (insert dest d s.files)
                ≡ some d =
              ap (λ p. lookup p (insert dest d s.files)) (sym direct)
              ∙ lookup-insert_self dest d s.files in
            rw (still, found, read_file) refl
      ]

  publish_reads :
      (rel_path : String) (e : StorageEvent) (s : StorageService D)
      → read_file host rel_path (publish_event e s) ≡ read_file host rel_path s
  unfolding publish_event read_file overlay_path
  publish_reads rel_path e s =
      if_ind (λ (z : StorageService D). read_file host rel_path z ≡ read_file host rel_path s)
        s.has_bus (λ _. refl) (λ _. refl)

  -- A file that has been written is read back under the same path where the host writes it, and where the
  -- write goes to the overlay, or goes to the partition while the overlay has no file of that path.
  pub read_file-write_file :
      (rel_path : String) (d : D) (force_overlay : Bool) (s : StorageService D)
      → host.writes (destination rel_path force_overlay s) ≡ true
      → (destination rel_path force_overlay s ≡ overlay_path rel_path s)
        ⊎ ((destination rel_path force_overlay s ≡ join s.rootfs rel_path)
            × (lookup (host.resolve (overlay_path rel_path s)) s.files ≡ none))
      → read_file host rel_path (write_file host rel_path d force_overlay s).1 ≡ ok d
  unfolding write_file
  read_file-write_file rel_path d force_overlay s writes visible =
      let dest = destination rel_path force_overlay s in
      let seen : (host.resolve dest ≡ host.resolve (overlay_path rel_path s))
          ⊎ ((host.resolve dest ≡ host.resolve (join s.rootfs rel_path))
              × (lookup (host.resolve (overlay_path rel_path s)) s.files ≡ none)) =
        elim visible [
          | inl over ↦ inl (ap (λ p. host.resolve p) over)
          | inr (direct, hidden) ↦ inr (ap (λ p. host.resolve p) direct, hidden)
        ] in
      rw (writes, write_file)
        (publish_reads rel_path (write_event rel_path) _
          ∙ read_inserted rel_path (host.resolve dest) d s seen)
