-- ===== src/DisplayService/Table.antt =====
-- The table of methods that src/unity_display_service.cpp spells out, and the answer of each.
use unity_system_compositor.Prelude.{
  ◌≡◌, ap, sym, true, false, ◌&&◌, none, some, Str, str_eq, str_eq_iff, bytes, Bool-cases,
  Option-cases, inl, inr, arith,
}
use unity_system_compositor.Prelude.Map
use unity_system_compositor.Prelude.Map.{str_key}
use unity_system_compositor.Dbus.{Dbus, IsDocumented, fits, introspectable, properties}
use unity_system_compositor.DisplayService.{
  Screen, DisplayService, dbus_display_interface, send, dbus_turn_on, dbus_turn_off, dispatch,
  handle_dbus_message,
}
use unity_system_compositor.DisplayService.Answers.{
  told_by_table, get_reply_lem, get_all_reply_lem, output_filter_lem,
}

-- The tests of the code, for a call whose member is known.
tests_of :
    {M : Type 0} ⦃dbus : Dbus M⦄ (documented : IsDocumented dbus) (m : M) (n : Str)
    → dbus.has_call_type m ≡ true
    → documented.member_name m ≡ n
    → (i name : Str)
    → dbus.is_method_call m i name ≡ (str_eq name n && fits i (documented.interface m))
tests_of documented m n call e i name =
    ground (arith, documented.call_tests m i name, call, ap (str_eq name) e)

-- The member of a message, by the name that a test finds it to be.
named :
    {M : Type 0} ⦃dbus : Dbus M⦄ (documented : IsDocumented dbus) (m : M) (n : Str)
    → str_eq n (documented.member_name m) ≡ true
    → documented.member_name m ≡ n
named documented m n e = sym ((str_eq_iff n (documented.member_name m)).0 e)

module _ {M S : Type 0} ⦃dbus : Dbus M⦄ ⦃screen : Screen S⦄ (documented : IsDocumented dbus) where
  abbrev IsTold : M → DisplayService S → Type 0
  IsTold m s = handle_dbus_message m s ≡ told_by_table documented m s

  IsTold-introspect :
      (m : M) (s : DisplayService S)
      → dbus.has_call_type m ≡ true
      → documented.member_name m ≡ bytes "Introspect"
      → IsTold m s
  unfolding handle_dbus_message dispatch send dbus_turn_on dbus_turn_off Map.find str_eq
  IsTold-introspect m s call e = elim (Bool-cases (fits introspectable (documented.interface m))) [
    | inl f ↦ simp (tests_of documented m (bytes "Introspect") call e, call, e, f)
    | inr f ↦ simp (tests_of documented m (bytes "Introspect") call e, call, e, f)
  ]

  IsTold-turn_on :
      (m : M) (s : DisplayService S)
      → dbus.has_call_type m ≡ true
      → documented.member_name m ≡ bytes "TurnOn"
      → IsTold m s
  unfolding handle_dbus_message dispatch send dbus_turn_on dbus_turn_off Map.find str_eq
  IsTold-turn_on m s call e =
      elim (Bool-cases (fits dbus_display_interface (documented.interface m))) [
        | inl f ↦ elim (Option-cases (dbus.string_arg m)) [
          | inl missing ↦ simp (
            tests_of documented m (bytes "TurnOn") call e,
            call,
            e,
            f,
            missing,
            output_filter_lem none,
          )
          | inr (a, given) ↦ simp (
            tests_of documented m (bytes "TurnOn") call e,
            call,
            e,
            f,
            given,
            output_filter_lem (some a),
          )
        ]
        | inr f ↦ simp (tests_of documented m (bytes "TurnOn") call e, call, e, f)
      ]

  IsTold-turn_off :
      (m : M) (s : DisplayService S)
      → dbus.has_call_type m ≡ true
      → documented.member_name m ≡ bytes "TurnOff"
      → IsTold m s
  unfolding handle_dbus_message dispatch send dbus_turn_on dbus_turn_off Map.find str_eq
  IsTold-turn_off m s call e =
      elim (Bool-cases (fits dbus_display_interface (documented.interface m))) [
        | inl f ↦ elim (Option-cases (dbus.string_arg m)) [
          | inl missing ↦ simp (
            tests_of documented m (bytes "TurnOff") call e,
            call,
            e,
            f,
            missing,
            output_filter_lem none,
          )
          | inr (a, given) ↦ simp (
            tests_of documented m (bytes "TurnOff") call e,
            call,
            e,
            f,
            given,
            output_filter_lem (some a),
          )
        ]
        | inr f ↦ simp (tests_of documented m (bytes "TurnOff") call e, call, e, f)
      ]

  IsTold-get :
      (m : M) (s : DisplayService S)
      → dbus.has_call_type m ≡ true
      → documented.member_name m ≡ bytes "Get"
      → IsTold m s
  unfolding handle_dbus_message dispatch send dbus_turn_on dbus_turn_off Map.find str_eq
  IsTold-get m s call e = elim (Bool-cases (fits properties (documented.interface m))) [
    | inl f ↦ elim (Option-cases (dbus.string_args m)) [
      | inl missing ↦
          simp
            (tests_of documented m (bytes "Get") call e, call, e, f, missing, get_reply_lem none s)
      | inr (a, given) ↦
          simp (
            tests_of documented m (bytes "Get") call e,
            call,
            e,
            f,
            given,
            get_reply_lem (some a) s,
          )
    ]
    | inr f ↦ simp (tests_of documented m (bytes "Get") call e, call, e, f)
  ]

  IsTold-get_all :
      (m : M) (s : DisplayService S)
      → dbus.has_call_type m ≡ true
      → documented.member_name m ≡ bytes "GetAll"
      → IsTold m s
  unfolding handle_dbus_message dispatch send dbus_turn_on dbus_turn_off Map.find str_eq
  IsTold-get_all m s call e = elim (Bool-cases (fits properties (documented.interface m))) [
    | inl f ↦ elim (Option-cases (dbus.string_arg m)) [
      | inl missing ↦ simp (
        tests_of documented m (bytes "GetAll") call e,
        call,
        e,
        f,
        missing,
        get_all_reply_lem none s,
      )
      | inr (a, given) ↦ simp (
        tests_of documented m (bytes "GetAll") call e,
        call,
        e,
        f,
        given,
        get_all_reply_lem (some a) s,
      )
    ]
    | inr f ↦ simp (tests_of documented m (bytes "GetAll") call e, call, e, f)
  ]

  IsTold-no_call : (m : M) (s : DisplayService S) → dbus.has_call_type m ≡ false → IsTold m s
  unfolding handle_dbus_message dispatch
  IsTold-no_call m s no_call = simp (documented.call_tests m, no_call)

  IsTold-other :
      (m : M) (s : DisplayService S)
      → dbus.has_call_type m ≡ true
      → str_eq (bytes "Introspect") (documented.member_name m) ≡ false
      → str_eq (bytes "TurnOn") (documented.member_name m) ≡ false
      → str_eq (bytes "TurnOff") (documented.member_name m) ≡ false
      → str_eq (bytes "Get") (documented.member_name m) ≡ false
      → str_eq (bytes "GetAll") (documented.member_name m) ≡ false
      → IsTold m s
  unfolding handle_dbus_message dispatch send Map.find
  IsTold-other m s call a b c d e = ground (
    arith,
    documented.call_tests m introspectable (bytes "Introspect"),
    documented.call_tests m dbus_display_interface (bytes "TurnOn"),
    documented.call_tests m dbus_display_interface (bytes "TurnOff"),
    documented.call_tests m properties (bytes "Get"),
    documented.call_tests m properties (bytes "GetAll"),
  )

  -- Where libdbus tests method calls as documented, so that a call without an interface is taken
  -- for one of any interface: a message that is no method call changes nothing, and a call is
  -- handled as the table of the five methods says by its member and its interface, any other call
  -- by the error "Not supported". TurnOn and TurnOff turn the internal, the external or all outputs
  -- on or off and are answered by an empty return; Get and GetAll are answered by the counts, bare
  -- or in a dictionary, or by an empty return for another property or interface. Where the
  -- arguments cannot be read, the filter is all, and the empty return is followed by the error
  -- "Invalid arguments".
  pub handle_dbus_message-told :
      (m : M) (s : DisplayService S) → handle_dbus_message m s ≡ told_by_table documented m s
  handle_dbus_message-told m s = elim (Bool-cases (dbus.has_call_type m)) [
    | inr no_call ↦ IsTold-no_call m s no_call
    | inl call ↦ elim (Bool-cases (str_eq (bytes "Introspect") (documented.member_name m))) [
      | inl e ↦ IsTold-introspect m s call (named documented m (bytes "Introspect") e)
      | inr a ↦ elim (Bool-cases (str_eq (bytes "TurnOn") (documented.member_name m))) [
        | inl e ↦ IsTold-turn_on m s call (named documented m (bytes "TurnOn") e)
        | inr b ↦ elim (Bool-cases (str_eq (bytes "TurnOff") (documented.member_name m))) [
          | inl e ↦ IsTold-turn_off m s call (named documented m (bytes "TurnOff") e)
          | inr c ↦ elim (Bool-cases (str_eq (bytes "Get") (documented.member_name m))) [
            | inl e ↦ IsTold-get m s call (named documented m (bytes "Get") e)
            | inr d ↦ elim (Bool-cases (str_eq (bytes "GetAll") (documented.member_name m))) [
              | inl e ↦ IsTold-get_all m s call (named documented m (bytes "GetAll") e)
              | inr f ↦ IsTold-other m s call a b c d f
            ]
          ]
        ]
      ]
    ]
  ]
