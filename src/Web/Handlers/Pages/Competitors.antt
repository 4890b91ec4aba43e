-- ===== src/Web/Handlers/Pages/Competitors.antt =====
-- The table of internal/web/handlers/alternatives.go.
use nexguard.Prelude.{true, false, List, [], ◌∷◌}
use nexguard.Prelude.Text.{codes}
use nexguard.Web.Http.{Competitor}

abbrev pub competitors : List Competitor
competitors =
    record {
      name = codes "Norton (Gen Digital)";
      open_source = false;
      free_tier = codes "None for Mac";
      pricing = codes "Subscription only";
      note = [];
      note_source = [];
    }
    ∷ record {
      name = codes "Avast / AVG (Gen Digital)";
      open_source = false;
      free_tier = codes "Limited free tier; full protection requires a paid plan";
      pricing = codes "Freemium, subscription for full protection";
      note =
          codes
            "In 2024 the FTC fined Avast $16.5 million and permanently banned it from selling browsing data for advertising, after finding it sold users' browsing history collected by its antivirus and browser tools, the same tools it marketed as blocking tracking.";
      note_source =
          codes
            "https://www.ftc.gov/news-events/news/press-releases/2024/02/ftc-order-will-ban-avast-selling-browsing-data-advertising-purposes-require-it-pay-165-million-over";
    }
    ∷ record {
      name = codes "Malwarebytes";
      open_source = false;
      free_tier = codes "Manual scan and cleanup only; real-time protection requires Premium";
      pricing = codes "Freemium, subscription for real-time protection";
      note = [];
      note_source = [];
    }
    ∷ record {
      name = codes "Bitdefender";
      open_source = false;
      free_tier = codes "None for Mac";
      pricing = codes "Subscription only";
      note = [];
      note_source = [];
    }
    ∷ record {
      name = codes "Intego";
      open_source = false;
      free_tier = codes "30-day trial, not a permanent free tier";
      pricing = codes "Subscription only";
      note = [];
      note_source = [];
    }
    ∷ record {
      name = codes "ClamAV";
      open_source = true;
      free_tier = codes "Everything, forever, same as NexGuard's free tier";
      pricing = codes "Free, no paid tier or company behind it";
      note =
          codes
            "A real, mature open-source engine, mainly built for mail-server scanning rather than a consumer desktop product: no GUI, no fleet dashboard, no support contract.";
      note_source = [];
    }
    ∷ record {
      name = codes "NexGuard";
      open_source = true;
      free_tier = codes "The full scanner, real-time watching, and manual feed sync";
      pricing = codes "Free forever; $10/month for priority support and (soon) a premium feed";
      note = codes "The only row on this table you don't have to take our word for.";
      note_source = [];
    }
    ∷ []
