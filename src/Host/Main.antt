-- ===== src/Host/Main.antt =====
-- `main` and `RunGuard` (main.cpp): the arguments, the child process and the report on it. `fork`,
-- `mprotect`, the file system and what the guest does are parameters.
use Prim.Native.String.{String}
use temp_esas.Prelude.{
  ℕ, ◌≡◌, ◌↔◌, ◌⊎◌, ◌∙◌, refl, arith, inl, inr, List, [], ◌∷◌, Option, none, some, Bool, true,
  false,
}
use temp_esas.Host.Guard.{
  accessible_size, fill_memory, ChildEnd, finished, memory_exception, hard_timeout, killed,
  exit_status, Report, exited_normally, report,
}

-- The program and the payload, from `argv`; another number of arguments fails an `assert`.
abbrev pub main_arguments : List String → Option (String × String)
main_arguments (self ∷ program ∷ []) = some (program, "")
main_arguments (self ∷ program ∷ payload ∷ []) = some (program, payload)
main_arguments _ = none

-- What the constructor of `Disassembler` leaves for `RunGuard`: the data size of the header and the
-- initial memory.
pub record Loaded : Type 0 where
  pub data_size : ℕ
  pub initial : List ℕ

-- The page size, whether `mprotect` opens so many bytes of the region, and how `RunTest` ends for a
-- payload, with so many bytes of memory that begin like this.
pub record Child : Type 0 where
  pub page_size : ℕ
  pub opens : ℕ → Bool
  pub run_test : String → ℕ → (ℕ → ℕ) → ChildEnd

-- The child's side of `RunGuard`; a failed `assert` is a signal.
unfoldable pub run_child : Child → Loaded → String → ChildEnd
run_child child image payload =
    let memory_size = accessible_size child.page_size image.data_size in
    elim (child.opens memory_size) [
      | false ↦ killed
      | true ↦ child.run_test payload memory_size (fill_memory image.initial)
    ]

-- What becomes of the process: it reports and returns, or an `assert` or an exception ends it.
pub data ProcessEnd : Type 0 where
  reports : Report → ProcessEnd
  aborts : ProcessEnd

abbrev pub report_outcome : Option Report → ProcessEnd
report_outcome none = aborts
report_outcome (some r) = reports r

-- The parent's side; `forked` says whether there is a child. Without one `waitpid` leaves the status
-- zero.
unfoldable pub run_guard : Bool → Child → Loaded → String → ProcessEnd
run_guard forked child image payload = elim forked [
  | false ↦ report_outcome (report (some 0))
  | true ↦ report_outcome (report (exit_status (run_child child image payload)))
]

-- `main`, with what loading a file gives; `none` is an exception of the constructor.
unfoldable pub main : (String → Option Loaded) → Bool → Child → List String → ProcessEnd
main load forked child argv = elim (main_arguments argv) [
  | none ↦ aborts
  | some (program, payload) ↦ elim (load program) [
    | none ↦ aborts
    | some image ↦ run_guard forked child image payload
  ]
]

-- How the parent's report goes with the child's end.
report-exit_status :
    (e : ChildEnd)
    → ((report_outcome (report (exit_status e)) ≡ reports exited_normally) ↔ (e ≡ finished))
      × ((report_outcome (report (exit_status e)) ≡ aborts) ↔ (e ≡ killed))
report-exit_status finished =
    ((λ h. refl, λ h. refl), (λ h. ground (arith, h), λ h. ground (arith, h)))
report-exit_status memory_exception = (
  (λ h. ground (arith, h), λ h. ground (arith, h)),
  (λ h. ground (arith, h), λ h. ground (arith, h)),
)
report-exit_status hard_timeout = (
  (λ h. ground (arith, h), λ h. ground (arith, h)),
  (λ h. ground (arith, h), λ h. ground (arith, h)),
)
report-exit_status killed =
    ((λ h. ground (arith, h), λ h. ground (arith, h)), (λ h. refl, λ h. refl))

-- When the child runs to its end, and when a signal ends it.
opened-ends :
    (b : Bool) (e : ChildEnd)
    → (((elim b [ false ↦ killed | true ↦ e ]) ≡ finished) ↔ ((b ≡ true) × (e ≡ finished)))
      × (((elim b [ false ↦ killed | true ↦ e ]) ≡ killed) ↔ ((b ≡ false) ⊎ (e ≡ killed)))
opened-ends false e =
    ((λ h. ground (arith, h), λ (h, g). ground (arith, h)), (λ h. inl refl, λ h. refl))
opened-ends true e = (
  (λ h. (refl, h), λ (h, g). g),
  (inr, λ h. elim h [ inl never ↦ ground (arith, never) | inr g ↦ g ]),
)

-- The end of `RunTest` in the child, with the memory that `RunGuard` has made ready.
abbrev pub guest_end : Child → Loaded → String → ChildEnd
guest_end child image payload =
    child.run_test payload (accessible_size child.page_size image.data_size)
      (fill_memory image.initial)

run_child-ends :
    (child : Child) (image : Loaded) (payload : String)
    → ((run_child child image payload ≡ finished) ↔ (
        (child.opens (accessible_size child.page_size image.data_size) ≡ true)
        × (guest_end child image payload ≡ finished)))
      × ((run_child child image payload ≡ killed) ↔ (
          (child.opens (accessible_size child.page_size image.data_size) ≡ false)
          ⊎ (guest_end child image payload ≡ killed)))
unfolding run_child
run_child-ends child image payload =
    opened-ends (child.opens (accessible_size child.page_size image.data_size))
      (guest_end child image payload)

module _ (load : String → Option Loaded) (child : Child) (argv : List String)
    (program payload : String) (image : Loaded)
    (arguments : main_arguments argv ≡ some (program, payload))
    (loaded : load program ≡ some image) where
  main-forked :
      main load true child argv
      ≡ report_outcome (report (exit_status (run_child child image payload)))
  unfolding main run_guard
  main-forked = ground (arith, arguments, loaded)

  -- Without a child the report is that it exited normally.
  main-unforked : main load false child argv ≡ reports exited_normally
  unfolding main run_guard
  main-unforked = ground (arith, arguments, loaded)

  -- For arguments that name a program which loads: the parent reports a normal exit exactly if
  -- `fork` made no child, or `mprotect` opened the bytes of memory that `RunGuard` asks for and
  -- `RunTest`, with the initial memory of the file at their beginning and zeros behind, ran to
  -- its end; and it aborts exactly if there is a child in which `mprotect` failed or `RunTest`
  -- was ended by a signal.
  pub main-exited_normally_iff :
      (forked : Bool)
      → ((main load forked child argv ≡ reports exited_normally) ↔ (
          (forked ≡ false)
          ⊎ ((child.opens (accessible_size child.page_size image.data_size) ≡ true)
              × (guest_end child image payload ≡ finished))))
        × ((main load forked child argv ≡ aborts) ↔ (
            (forked ≡ true)
            × ((child.opens (accessible_size child.page_size image.data_size) ≡ false)
                ⊎ (guest_end child image payload ≡ killed))))
  main-exited_normally_iff false = (
    (λ h. inl refl, λ h. main-unforked),
    (λ h. ground (arith, h, main-unforked), λ (h, e). ground (arith, h)),
  )
  main-exited_normally_iff true =
      let ((normal_to, normal_from), (abort_to, abort_from)) =
        report-exit_status (run_child child image payload) in
      let ((finished_to, finished_from), (killed_to, killed_from)) =
        run_child-ends child image payload in
      (
        (
          λ h. inr (finished_to (normal_to (ground (arith, h, main-forked)))),
          λ h. elim h [
            | inl never ↦ ground (arith, never)
            | inr e ↦ main-forked ∙ normal_from (finished_from e)
          ],
        ),
        (
          λ h. (refl, killed_to (abort_to (ground (arith, h, main-forked)))),
          λ (h, e). main-forked ∙ abort_from (killed_from e),
        ),
      )
