-- ===== src/Bringup/CommandLine.antt =====
-- The command line of bringup_node.cpp: options written as arguments and read back.
use kinova_gen3_ros.Common.{
  ◌<◌, ◌^◌, ◌≡◌, refl, sym, ap, ◌∙◌, if_yes, if_no, List, [], ◌∷◌, none, some, Bool-cases, inl, inr,
  if◌then◌else◌,
}
use kinova_gen3_ros.Common.Text.{String}
use kinova_gen3_ros.Common.Int.{ℤ, pos, negsuc}
use kinova_gen3_ros.Externals.{Double}
use kinova_gen3_ros.Bringup.{
  Options, Numerals, continues, unknown, flag_of, set_valued, parse_loop, parse_args, Valued,
  valued, ip_flag, cpu_flag, ee_frame_flag, rt_csv_flag, rt_priority_flag, rate_flag,
  max_ref_speed_flag, with_cpu, with_prio, with_rate, with_max_ref_speed,
}

-- An `int`: what std::stoi returns without throwing std::out_of_range.
abbrev pub IsInt : ℤ → Type 0
IsInt (pos n) = n < 2 ^ 31
IsInt (negsuc n) = n < 2 ^ 31

-- Arguments that are none of the node's flags.
abbrev pub AllUnknown : List String → Type 0
AllUnknown [] = Unit
AllUnknown (a ∷ args) = (flag_of a ≡ unknown) × AllUnknown args

module _ {W : Type 0} (print_int : ℤ → String) (print_double : W → String) where
  values : Options W → List String → List String
  values o extra =
      "--ip"
      ∷ o.ip
      ∷ "--cpu"
      ∷ print_int o.cpu
      ∷ "--ee-frame"
      ∷ o.ee_frame
      ∷ "--rt-csv"
      ∷ o.rt_csv
      ∷ "--rt-priority"
      ∷ print_int o.prio
      ∷ "--rate"
      ∷ print_double o.rate
      ∷ "--max-ref-speed"
      ∷ print_double o.max_ref_speed
      ∷ extra

  -- The options as arguments, the flags in the order of the code.
  pub command_line : Options W → List String → List String
  command_line o extra = if o.use_sim then "--sim" ∷ values o extra else values o extra

  module _ ⦃d : Double W⦄ (numerals : Numerals W) where
    ignored :
        (args : List String) (o : Options W)
        → AllUnknown args
        → parse_loop numerals args none o ≡ continues o
    unfolding parse_loop
    ignored [] o h = refl
    ignored (a ∷ args) o h = rw (parse_loop, h.0) (ignored args o h.1)

    read_valued :
        (a v : String) (args : List String) (f : Valued) (o o' : Options W)
        → flag_of a ≡ valued f
        → set_valued numerals f v o ≡ some o'
        → parse_loop numerals (a ∷ v ∷ args) none o ≡ parse_loop numerals args none o'
    unfolding parse_loop
    read_valued a v args f o o' e set = rw (parse_loop, e) (rw (parse_loop, set) refl)

    abbrev headed : Options W → Options W → Options W
    headed o s = record s { ip = o.ip; cpu = o.cpu; ee_frame = o.ee_frame; rt_csv = o.rt_csv }

    -- The flags with values, from any options before them.
    read_values :
        ((n : ℤ) → IsInt n → numerals.stoi (print_int n) ≡ some n)
        → ((x : W) → numerals.stod (print_double x) ≡ some x)
        → (o s : Options W) → IsInt o.cpu
        → IsInt o.prio
        → (extra : List String) → AllUnknown extra
        → parse_loop numerals (values o extra) none s ≡ continues (record o { use_sim = s.use_sim })
    unfolding flag_of values
    read_values ints doubles o s cpu prio extra h =
        read_valued "--ip" o.ip _ ip_flag _ _ refl refl
        ∙ read_valued "--cpu" _ _ cpu_flag _ _ refl
            (ap (with_cpu (record s { ip = o.ip })) (ints o.cpu cpu))
        ∙ read_valued "--ee-frame" _ _ ee_frame_flag _ _ refl refl
        ∙ read_valued "--rt-csv" _ _ rt_csv_flag _ _ refl refl
        ∙ read_valued "--rt-priority" _ _ rt_priority_flag _ _ refl
            (ap (with_prio (headed o s)) (ints o.prio prio))
        ∙ read_valued "--rate" _ _ rate_flag _ _ refl
            (ap (with_rate (record (headed o s) { prio = o.prio })) (doubles o.rate))
        ∙ read_valued "--max-ref-speed" _ _ max_ref_speed_flag _ _ refl (
            ap (with_max_ref_speed (record (headed o s) { prio = o.prio; rate = o.rate }))
              (doubles o.max_ref_speed))
        ∙ ignored extra _ h

    -- Every combination of options can be given on the command line: with printers that stoi (of an
    -- int) and stod read back, options whose core and priority are ints, written as arguments, are
    -- read as they were, whatever texts they hold (also texts that look like flags), and arguments
    -- that are no flag of the node, as those of ROS, change nothing.
    pub command_line_read_back :
        ((n : ℤ) → IsInt n → numerals.stoi (print_int n) ≡ some n)
        → ((x : W) → numerals.stod (print_double x) ≡ some x)
        → (o : Options W) → IsInt o.cpu
        → IsInt o.prio
        → (extra : List String) → AllUnknown extra
        → parse_args numerals (command_line o extra) ≡ continues o
    unfolding parse_args command_line flag_of
    command_line_read_back ints doubles o cpu prio extra h = elim (Bool-cases o.use_sim) [
      | inl y ↦
          ap (λ args. parse_args numerals args) (if_yes _ _ y)
          ∙ read_values ints doubles o _ cpu prio extra h
          ∙ ap (λ b. continues (record o { use_sim = b })) (sym y)
      | inr n ↦
          ap (λ args. parse_args numerals args) (if_no _ _ n)
          ∙ read_values ints doubles o _ cpu prio extra h
          ∙ ap (λ b. continues (record o { use_sim = b })) (sym n)
    ]
