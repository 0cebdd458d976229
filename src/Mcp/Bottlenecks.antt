-- ===== src/Mcp/Bottlenecks.antt =====
-- internal/mcp/server.go: `DetectBottlenecks`. The arithmetic of float64 and sort.Slice are
-- parameters, the texts of the explanations are not modelled.
pub mod Seen
pub mod Best
pub mod Traced
pub mod Reasons
use netdata_postgres_mcp.Base.{
  ℕ, Bool, true, false, not, ◌&&◌, ◌||◌, List, [], ◌∷◌, ◌++◌, Option, none, some, if◌then◌else◌,
}
use netdata_postgres_mcp.Base.Text.{Bytes, str, eq_str, has_prefix}
use netdata_postgres_mcp.Mcp.Readings.{DimAgg, Readings, whole, no_readings, read_aggs}
use netdata_postgres_mcp.Base.Floats.{Float, round2, raise}

pub record BottleneckEvidence (F : Type 0) : Type 0 where
  pub context : Bytes
  pub dimension : Bytes
  pub avg_value : F
  pub max_value : F

-- "none", "cpu", "ram" and "disk".
pub data BottleneckType : Type 0 where
  nothing cpu ram disk : BottleneckType

pub record BottleneckResult (F : Type 0) : Type 0 where
  pub node_id : Bytes
  pub bottleneck_type : BottleneckType
  pub confidence : F
  pub evidence : List (BottleneckEvidence F)

pub record Candidate (F : Type 0) : Type 0 where
  pub btype : BottleneckType
  pub confidence : F
  pub evidence : List (BottleneckEvidence F)

module _ {F : Type 0} (float : Float F) where
  abbrev pub when : Bool → Candidate F → List (Candidate F)
  when b c = if b then c ∷ [] else []

  -- cpuUsageAvg > 80 || cpuUsageMax > 95
  unfoldable pub is_cpu_bound : Readings F → Bool
  is_cpu_bound r =
      r.has_cpu
      && (float.less (whole float 80) r.cpu_usage_avg
          || float.less (whole float 95) r.cpu_usage_max)

  -- ramUsedMax > 0 && (swapUsedAvg > 100 || ramUsedAvg > ramUsedMax*0.9)
  unfoldable pub is_ram_bound : Readings F → Bool
  is_ram_bound r =
      r.has_ram
      && (float.less (whole float 0) r.ram_used_max
          && (float.less (whole float 100) r.swap_used_avg
              || float.less (float.mul r.ram_used_max (float.decimal 9 1)) r.ram_used_avg))

  -- diskUtilMax > 80 || iowaitAvg > 10, if there is a disk or the wait is above 5
  unfoldable pub is_disk_bound : Readings F → Bool
  is_disk_bound r =
      (r.has_disk || float.less (whole float 5) r.iowait_avg)
      && (float.less (whole float 80) r.disk_util_max || float.less (whole float 10) r.iowait_avg)

  unfoldable pub cpu_candidate : Readings F → Candidate F
  unfolding round2
  cpu_candidate r = record {
    btype = cpu;
    confidence = round2 float (
        float.min (whole float 1) (
          float.mul
            (float.div
              (float.add (float.div r.cpu_usage_avg (whole float 100))
                (float.div r.cpu_usage_max (whole float 100)))
              (whole float 2))
            (float.decimal 12 1)));
    evidence =
        (record {
          context = str "system.cpu";
          dimension = str "total_usage";
          avg_value = round2 float r.cpu_usage_avg;
          max_value = round2 float r.cpu_usage_max;
        })
        ∷ [];
  }

  unfoldable pub ram_candidate : Readings F → Candidate F
  unfolding round2
  ram_candidate r = record {
    btype = ram;
    confidence = round2 float (
        if float.less (whole float 500) r.swap_used_avg
        then float.decimal 9 1
        else float.decimal 6 1);
    evidence =
        (record {
          context = str "system.ram";
          dimension = str "used";
          avg_value = round2 float r.ram_used_avg;
          max_value = round2 float r.ram_used_max;
        })
        ∷ (record {
          context = str "system.swap";
          dimension = str "used";
          avg_value = round2 float r.swap_used_avg;
          max_value = whole float 0;
        })
        ∷ [];
  }

  unfoldable pub disk_evidence : Readings F → List (BottleneckEvidence F)
  unfolding round2
  disk_evidence r =
      let util : BottleneckEvidence F = record {
        context = str "disk.util";
        dimension = str "utilization";
        avg_value = whole float 0;
        max_value = round2 float r.disk_util_max;
      } in
      let wait : BottleneckEvidence F = record {
        context = str "system.cpu";
        dimension = str "iowait";
        avg_value = round2 float r.iowait_avg;
        max_value = whole float 0;
      } in
      (if r.has_disk then util ∷ [] else [])
      ++ (if float.less (whole float 0) r.iowait_avg then wait ∷ [] else [])

  unfoldable pub disk_candidate : Readings F → Candidate F
  unfolding round2 disk_evidence
  disk_candidate r = record {
    btype = disk;
    confidence = round2 float (
        float.min (whole float 1) (
          float.mul
            (float.div
              (float.add (float.div r.disk_util_max (whole float 100))
                (float.div r.iowait_avg (whole float 20)))
              (whole float 2))
            (float.decimal 13 1)));
    evidence = disk_evidence r;
  }

  unfoldable pub candidates : Readings F → List (Candidate F)
  unfolding is_cpu_bound is_ram_bound is_disk_bound cpu_candidate ram_candidate disk_candidate
  candidates r =
      when (is_cpu_bound r) (cpu_candidate r)
      ++ when (is_ram_bound r) (ram_candidate r)
      ++ when (is_disk_bound r) (disk_candidate r)

  -- The first candidate after sorting, or no bottleneck.
  unfoldable pub result_of : Bytes → List (Candidate F) → BottleneckResult F
  result_of node_id [] = record {
    node_id = node_id;
    bottleneck_type = nothing;
    confidence = float.decimal 9 1;
    evidence = [];
  }
  result_of node_id (best ∷ rest) = record {
    node_id = node_id;
    bottleneck_type = best.btype;
    confidence = best.confidence;
    evidence = best.evidence;
  }

  -- `sort` is sort.Slice, by a test that an item comes before another.
  module _
      (sort : (Candidate F → Candidate F → Bool) → List (Candidate F) → List (Candidate F)) where
    unfoldable pub detect_bottlenecks : Bytes → List (DimAgg F) → BottleneckResult F
    unfolding read_aggs no_readings candidates result_of
    detect_bottlenecks node_id aggs = result_of node_id (
        sort (λ c d. float.less d.confidence c.confidence)
          (candidates (read_aggs float (no_readings float) aggs)))
