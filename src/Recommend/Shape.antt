-- ===== src/Recommend/Shape.antt =====
-- The findings of internal/analysis/recommend.go that do not rest on the load of a VM's CPU or memory:
-- `storageFindings`, `placementFindings` and `orphanFindings`.
use rightsizer.Prelude.{
  ℕ, ◌+◌, ◌*◌, ◌/◌, ◌^◌, max, not, ◌&&◌, ◌||◌, List, [], ◌∷◌, ◌++◌, map, ℤ, pos, pos_part, ◌-ℤ◌,
  ◌+ℤ◌, ltℤ, ltb, leb, if◌then◌else◌,
}
use rightsizer.Floats.{Floats}
use rightsizer.Text.{codes}
use rightsizer.Stats.Average.{stat_avg}
use rightsizer.Stats.Vm.{VmStats}
use rightsizer.Recommend.Data.{
  old_snap, thick_disk, orphan, wide_vm, co_stop_high, medium, high, Disk, GuestDisk, Vm, Host,
  OrphanDisk, is_zero, Finding, VmResult, blank, ratio, of_signed,
}
use rightsizer.Recommend.Rules.{gib, days, sev_bytes}

-- The loop over the snapshots, from `oldest` on.
unfoldable pub oldest_from : ℤ → List ℤ → ℤ
oldest_from oldest [] = oldest
oldest_from oldest (t ∷ ts) = oldest_from (if is_zero oldest || ltℤ t oldest then t else oldest) ts

unfoldable pub thick_bytes : List Disk → ℕ
thick_bytes [] = 0
thick_bytes (d ∷ ds) =
    let rest = thick_bytes ds in
    if not d.thin && leb (20 * gib) d.capacity then d.capacity + rest else rest

unfoldable pub guest_capacity : List GuestDisk → ℕ
guest_capacity [] = 0
guest_capacity (g ∷ gs) = g.capacity + guest_capacity gs

unfoldable pub guest_used : List GuestDisk → ℤ
guest_used [] = pos 0
guest_used (g ∷ gs) = (pos g.capacity -ℤ pos g.free) +ℤ guest_used gs

module _ (fl : Floats) where
  unfoldable pub snapshot_findings : Vm → ℤ → List (Finding fl)
  snapshot_findings vm now =
      let oldest = oldest_from (pos 0) vm.snapshots in
      let age = now -ℤ oldest in
      let sev = if ltℤ (days 7) age || ltb (50 * gib) vm.snapshot_bytes then high else medium in
      let f : Finding fl = record (blank fl vm.name vm.cluster (codes "high") old_snap sev) {
        bytes = vm.snapshot_bytes;
      } in
      if not (is_zero oldest) && ltℤ (days 3) age then f ∷ [] else []

  unfoldable pub disk_findings : Vm → List (Finding fl)
  disk_findings vm =
      let thick = thick_bytes vm.disks in
      let cap = guest_capacity vm.guest_disks in
      let used = of_signed fl (guest_used vm.guest_disks) in
      let part = fl.sub (fl.of_int 1) (fl.div used (fl.of_int cap)) in
      let reclaim = fl.trunc (fl.mul (fl.of_int thick) part) in
      let f : Finding fl =
        record (blank fl vm.name vm.cluster (codes "medium") thick_disk (sev_bytes reclaim)) {
          bytes = reclaim;
        } in
      if ltb 0 thick && ltb 0 cap && fl.lt used (fl.mul (ratio fl 1 2) (fl.of_int cap))
      then f ∷ []
      else []

  unfoldable pub storage_findings : Vm → ℤ → List (Finding fl)
  storage_findings vm now = snapshot_findings vm now ++ disk_findings vm

  unfoldable pub wide_findings : Vm → VmResult fl → Host → List (Finding fl)
  wide_findings vm vr h =
      let per_node = h.cores / h.numa_nodes in
      let mem_node = h.mem_bytes / h.numa_nodes in
      let mem = vm.mem_mb * 2 ^ 20 in
      let wide_cpu = ltb 0 per_node && ltb per_node vm.vcpu in
      let wide_mem = ltb 0 mem_node && ltb mem_node mem in
      let f : Finding fl = record (blank fl vm.name vm.cluster vr.confidence wide_vm medium) {
        metric =
            fl.larger (fl.div (fl.of_int vm.vcpu) (fl.of_int (max per_node 1)))
              (fl.div (fl.of_int mem) (fl.of_int (max mem_node 1)));
      } in
      if ltb 0 h.cores && ltb 0 h.numa_nodes && (wide_cpu || wide_mem) then f ∷ [] else []

  unfoldable pub co_stop_findings : Vm → VmResult fl → VmStats fl → List (Finding fl)
  co_stop_findings vm vr s =
      let cs = stat_avg fl s.co_stop in
      let f : Finding fl = record (blank fl vm.name vm.cluster vr.confidence co_stop_high high) {
        metric = fl.mul cs (fl.of_int 10);
      } in
      if fl.le (fl.of_int 3) cs && leb 2 vm.vcpu then f ∷ [] else []

  unfoldable pub placement_findings : Vm → VmResult fl → VmStats fl → Host → List (Finding fl)
  placement_findings vm vr s h = wide_findings vm vr h ++ co_stop_findings vm vr s

  abbrev pub orphan_finding : OrphanDisk → Finding fl
  orphan_finding o =
      let size = pos_part o.size in
      record (blank fl o.path o.datastore (codes "medium") orphan (sev_bytes size)) {
        path = o.path;
        bytes = size;
      }

  unfoldable pub orphan_findings : List OrphanDisk → List (Finding fl)
  orphan_findings os = map orphan_finding os
