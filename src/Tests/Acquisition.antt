-- ===== src/Tests/Acquisition.antt =====
-- The acquisition of a No-Intro catalog at concrete pages and replies.
use romd_dat_catalogs.Prelude.{
  ℕ, zero, suc, ◌≤◌, ◌≡◌, refl, ◌⊎◌, String, true, false, none, some, [], ◌∷◌, All, ok, err,
  refuse_if, length, string_eq, nat_eq,
}
use romd_dat_catalogs.Prelude.Dict.{Dict, lookup, insert, remove}
use romd_dat_catalogs.Prelude.Regex.{match_string, matches, nullable, after}
use romd_dat_catalogs.Prelude.Text.{has_prefix, is_space}
use romd_dat_catalogs.Definitions.{Catalog}
use romd_dat_catalogs.NoIntro.Scan.{
  forms, inputs, selects, options, matches_in, size, find_all, open_tag, content_of, close_tag,
  behind, take_until, drop_until, is_word, is_gap,
}
use romd_dat_catalogs.NoIntro.Attributes.{
  Html, attrs, attribute_at, ends_key, ends_bare, collect, add_attribute, attr, has_attr,
}
use romd_dat_catalogs.NoIntro.Forms.{
  prepare_name, download_name, base_values, when, complete_selection, early_systems, batch_three,
  decrypted_systems, selector_name, trim_space, trim_suffix,
}
use romd_dat_catalogs.NoIntro.Forms.Prepare.{
  prepare_form, main_form, check_selects, identify, submit_controls, take_controls, take_control,
  take_enabled, take_wanted, take_submit, offer, is_optional, is_prepare, is_custom, times_found,
  each_found_once, is_chosen_system,
}
use romd_dat_catalogs.NoIntro.Forms.Prepare.Asked.{choices, asked}
use romd_dat_catalogs.NoIntro.Forms.Prepare.Exact.{prepare_form-exact}
use romd_dat_catalogs.NoIntro.Forms.Download.{
  download_form, scan_forms, scan_inputs, select, is_button, is_other,
}
use romd_dat_catalogs.NoIntro.Forms.Download.Single.{offers, download_form-single}
use romd_dat_catalogs.NoIntro.Acquire.{World, Adapter, Reply, no_reply, response}
use romd_dat_catalogs.NoIntro.Acquire.Session.{Tried}
use romd_dat_catalogs.NoIntro.Acquire.Walk.{acquire}
use romd_dat_catalogs.NoIntro.Acquire.Fair.{Spaced, IsReviewed}
use romd_dat_catalogs.NoIntro.Acquire.Verdict.{Verdict}
use romd_dat_catalogs.NoIntro.Acquire.Ends.{
  acquire_terminates, acquire-Spaced, acquire-IsReviewed, acquire-Verdict,
}

abbrev plain : Html
plain = record { to_lower = λ s. s; unescape = λ s. s }

abbrev selection_page : String
selection_page =
    "<form name=main_form method=post action><select name=system_selection><option selected value=64>Nintendo - Nintendo 3DS</option></select><input type=radio name=format value=0><input type=radio name=naming value=0><input type=radio name=inc_bios value=1><input type=radio name=release_1 value=1><input type=radio name=release_2 value=1><input type=radio name=storage_1 value=1><input type=radio name=storage_2 value=1><input type=radio name=inc_nodump value=1><input type=radio name=special1_filter value=all_specials1><input type=radio name=special2_filter value=all_specials2><input type=radio name=language_filter value=all_languages><input type=radio name=region_filter value=all_regions><input type=radio name=numbered value=0><input type=radio name=inc_xroms value=1><input type=radio name=inc_zroms value=1><input type=radio name=inc_mia value=1><input type=submit name=download_dat_2026-01-02 value=Prepare></form>"

abbrev download_page : String
download_page =
    "<form method=post><input type=submit name=0123456789abcdef0123456789abcdef value=Download!!></form>"

abbrev reviewed_3ds : Catalog
reviewed_3ds = record {
  system_id = "3ds";
  provider = "no-intro";
  provider_system_id = "64";
  representation = "standard";
  expected_name = "Nintendo - Nintendo 3DS (Decrypted)";
  minimum_games = 1;
  minimum_roms = 1;
}

abbrev sent : Dict String
sent =
    ("format", "0")
    ∷ ("naming", "0")
    ∷ ("inc_bios", "1")
    ∷ ("release_1", "1")
    ∷ ("release_2", "1")
    ∷ ("storage_1", "1")
    ∷ ("storage_2", "1")
    ∷ ("inc_nodump", "1")
    ∷ ("special1_filter", "all_specials1")
    ∷ ("special2_filter", "all_specials2")
    ∷ ("language_filter", "all_languages")
    ∷ ("region_filter", "all_regions")
    ∷ ("numbered", "0")
    ∷ ("inc_xroms", "1")
    ∷ ("inc_zroms", "1")
    ∷ ("inc_mia", "1")
    ∷ ("download_dat_2026-01-02", "Prepare")
    ∷ []

selection_page_sent : prepare_form plain selection_page reviewed_3ds ≡ ok sent
unfolding forms inputs selects options matches_in size find_all open_tag content_of close_tag behind
    take_until drop_until is_word is_gap attrs attribute_at ends_key ends_bare collect add_attribute
    attr has_attr insert lookup remove prepare_form main_form check_selects identify submit_controls
    take_controls take_control take_enabled take_wanted take_submit offer is_optional is_prepare
    is_custom times_found each_found_once base_values when complete_selection early_systems
    batch_three decrypted_systems is_chosen_system selector_name trim_space trim_suffix prepare_name
    match_string matches nullable after has_prefix is_space refuse_if string_eq nat_eq
selection_page_sent = refl

numbered_sent : lookup "numbered" sent ≡ some "0"
unfolding lookup string_eq
numbered_sent = refl

prepare_form-exact_example :
    (content : String) × (main_form plain (forms selection_page) ("", 0) ≡ ok (content, 1))
    × (((match_string prepare_name "numbered" ≡ true) × (◌≡◌ {A = String} "0" "Prepare"))
        ⊎ ((choices plain "numbered" "0" (inputs content) ≡ 1)
            × (asked "64" "numbered" ≡ some "0")))
prepare_form-exact_example =
    prepare_form-exact plain selection_page reviewed_3ds sent "numbered" "0" selection_page_sent
      numbered_sent

abbrev button : Dict String
button = ("0123456789abcdef0123456789abcdef", "Download!!") ∷ []

button_found : download_form plain download_page ≡ ok button
unfolding download_form scan_forms scan_inputs select is_button is_other download_name forms inputs
    matches_in size find_all open_tag content_of close_tag behind take_until drop_until is_word
    is_gap attrs attribute_at ends_key ends_bare collect add_attribute attr has_attr insert lookup
    match_string matches nullable after refuse_if string_eq nat_eq
button_found = refl

download_form-single_example :
    (name : String) × (offers plain (forms download_page) ≡ name ∷ [])
    × (button ≡ (name, "Download!!") ∷ [])
    × (match_string download_name name ≡ true)
download_form-single_example = download_form-single plain download_page button button_found

abbrev replies : ℕ → Reply
replies zero = response 200 "" "" "" none (record { delivered = 1 ∷ []; fails = false })
replies (suc zero) = response 503 "30" "" "" none (record { delivered = []; fails = false })
replies (suc (suc n)) = no_reply

abbrev datomatic : World
datomatic = record {
  reply = replies;
  idle = λ i. 1;
  late = λ i. 0;
  took = λ i. 2;
  is_cut_short = λ i. false;
  is_bad_target = λ target. false;
  is_busy = λ n. false;
  is_over = λ n. false;
  is_backoff_cut = λ n. false;
  make_stage = ok tt;
  write = λ n. ok "catalog.input";
  html = plain;
  text = λ b. selection_page;
  urls = record {
    parse = λ s. err "invalid URL";
    resolve = λ base u. u;
    parse_query = λ s. ok [];
    print = λ u. "";
  };
  formats = record { unzip = λ b. none; xml_tokens = λ b. record { tokens = []; fails = true } };
  unmarshal = λ b. err "EOF";
  hash = λ b. "";
  format_time = λ t. "later";
  parse_http_date = λ s. none;
}

abbrev idle_adapter : Adapter
idle_adapter = record {
  origin = "https://datomatic.no-intro.org";
  gap = 5000000000;
  next = 0;
  clock = 1000000000000;
  requests = [];
}

abbrev id_3ds : String
id_3ds = "no-intro/3ds/standard"

acquire_terminates_example :
    (t : Tried) × (acquire datomatic id_3ds reviewed_3ds idle_adapter ≡ some t)
    × (length t.adapter.requests ≤ 12)
acquire_terminates_example = acquire_terminates datomatic id_3ds reviewed_3ds idle_adapter refl

acquire-Spaced_example :
    (t : Tried) × (acquire datomatic id_3ds reviewed_3ds idle_adapter ≡ some t)
    × Spaced 5000000000 t.adapter.next t.adapter.requests
acquire-Spaced_example = acquire-Spaced datomatic id_3ds reviewed_3ds idle_adapter refl

acquire-IsReviewed_example :
    (t : Tried) × (acquire datomatic id_3ds reviewed_3ds idle_adapter ≡ some t)
    × All (λ q. IsReviewed datomatic reviewed_3ds q.step q.values) t.adapter.requests
acquire-IsReviewed_example = acquire-IsReviewed datomatic id_3ds reviewed_3ds idle_adapter refl

acquire-Verdict_example :
    (t : Tried) × (acquire datomatic id_3ds reviewed_3ds idle_adapter ≡ some t)
    × Verdict datomatic reviewed_3ds t
acquire-Verdict_example = acquire-Verdict datomatic id_3ds reviewed_3ds idle_adapter refl
