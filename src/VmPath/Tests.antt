-- ===== src/VmPath/Tests.antt =====
-- Runs of the path functions at the inputs of the unit tests of src/owner.rs, and at a few others.
use dbvm.Common.{codes, ◌≡◌, refl}
use dbvm.VmPath.{normalize_vm_path, mount_link_text}

mount_link_text_climbs :
    mount_link_text (codes "/bin/sh") (codes "/usr/lib/../bin/dash") ≡ codes "../usr/bin/dash"
unfolding mount_link_text
mount_link_text_climbs = refl

mount_link_text_root : mount_link_text (codes "/link") (codes "/") ≡ codes "."
unfolding mount_link_text
mount_link_text_root = refl

normalize_messy : normalize_vm_path (codes " a//.///b/../c/ ") ≡ codes "/a/c"
unfolding normalize_vm_path
normalize_messy = refl

normalize_above_root : normalize_vm_path (codes "/../..") ≡ codes "/"
unfolding normalize_vm_path
normalize_above_root = refl
